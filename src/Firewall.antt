-- ===== src/Firewall.antt =====
-- transports/fw: rules on addresses, and the transport that they guard. The transport below is a
-- parameter.
pub mod Laws
pub mod Tests
use gogotelehash.Prelude.{
  ℕ, ◌-◌, ◌/◌, Bool, true, false, not, ◌&&◌, Option, none, some, List, [], ◌∷◌, if◌then◌else◌, All,
}

-- The rules that the package builds. An interface that is nil is `none` where the code asks for it.
pub data Rule (Addr : Type 0) : Type 0 where
  match_none match_all : Rule Addr
  func : (Addr → Bool) → Rule Addr
  negate_rule : Rule Addr → Rule Addr

pub data Dialed {ℓ} (C : Type ℓ) : Type ℓ where
  unreachable_host : Dialed C
  dialed : C → Dialed C

-- What `Accept` of the transport below answers, call by call: connections by their remote address,
-- or an error.
pub data Accepted (Addr : Type 0) : Type 0 where
  conn : Addr → Accepted Addr
  failed : ℕ → Accepted Addr

-- How `Accept` ends: with what it returns, the connections that it closed before, and the answers
-- that are left. `none` when the answers run out, so that the call waits.
pub record Accept (Addr : Type 0) : Type 0 where
  pub result : Accepted Addr
  pub closed : List Addr
  pub left : List (Accepted Addr)

module _ {Addr : Type 0} where
  -- `Match`. `negateRule` embeds its rule and declares `Allow`, so that its `Match` is the rule's.
  unfoldable pub match : Rule Addr → Addr → Bool
  match match_none src = false
  match match_all src = true
  match (func f) src = f src
  match (negate_rule r) src = match r src

  -- The method `Allow` of `negateRule`.
  unfoldable pub allow : Rule Addr → Addr → Bool
  unfolding match
  allow r src = not (match r src)

  unfoldable pub negate : Option (Rule Addr) → Rule Addr
  negate none = match_none
  negate (some r) = negate_rule r

  unfoldable pub every : List (Rule Addr) → Addr → Bool
  unfolding match
  every [] src = true
  every (r ∷ rules) src = let rest = every rules src in if not (match r src) then false else rest

  unfoldable pub any : List (Rule Addr) → Addr → Bool
  unfolding match
  any [] src = false
  any (r ∷ rules) src = let rest = any rules src in if match r src then true else rest

  unfoldable pub when_all : List (Rule Addr) → Rule Addr
  when_all [] = match_none
  when_all (r ∷ []) = r
  when_all (r ∷ q ∷ rules) = func (every (r ∷ q ∷ rules))

  unfoldable pub when_none : List (Rule Addr) → Rule Addr
  unfolding negate when_all
  when_none rules = negate (some (when_all rules))

  unfoldable pub when_any : List (Rule Addr) → Rule Addr
  when_any [] = match_none
  when_any (r ∷ []) = r
  when_any (r ∷ q ∷ rules) = func (any (r ∷ q ∷ rules))

  -- `fw.rule != nil && !fw.rule.Match(addr)`
  abbrev pub refuses : Option (Rule Addr) → Addr → Bool
  refuses none a = false
  refuses (some r) a = not (match r a)

  -- What the transport below does with the address is `dial`.
  unfoldable pub dial {ℓ} : {C : Type ℓ} → Option (Rule Addr) → (Addr → C) → Addr → Dialed C
  dial rule below a = if refuses rule a then unreachable_host else dialed (below a)

  abbrev pub close_first : Addr → Option (Accept Addr) → Option (Accept Addr)
  close_first a none = none
  close_first a (some r) = some (record r { closed = a ∷ r.closed })

  unfoldable pub accept : Option (Rule Addr) → List (Accepted Addr) → Option (Accept Addr)
  accept rule [] = none
  accept rule (failed e ∷ l) = some (record { result = failed e; closed = []; left = l })
  accept rule (conn a ∷ l) =
      let rest = accept rule l in
      if refuses rule a
      then close_first a rest
      else some (record { result = conn a; closed = []; left = l })
