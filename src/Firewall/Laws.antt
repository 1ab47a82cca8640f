-- ===== src/Firewall/Laws.antt =====
-- transports/fw: what the rules match, and what gets through the firewall.
use gogotelehash.Firewall.{
  Rule, match, every, any, when_all, when_none, when_any, refuses, Accepted, conn, failed, Accept,
  close_first, accept,
}
use gogotelehash.Prelude.{
  ◌≡◌, ◌↔◌, true, none, List, [], ◌∷◌, All, refl, sym, ap, ◌∙◌, inl, inr, false, Option, some, ◌++◌,
  map, if_intro, Bool-cases,
}
use mathlib.Core.Bool.{true≢false}

module _ {Addr : Type 0} where
  abbrev pub Matches : Addr → Rule Addr → Type 0
  Matches src r = match r src ≡ true

  abbrev pub Misses : Addr → Rule Addr → Type 0
  Misses src r = match r src ≡ false

  every_iff :
      (rules : List (Rule Addr)) (src : Addr) → (every rules src ≡ true) ↔ All (Matches src) rules
  unfolding every
  every_iff [] src = (λ _. tt, λ _. refl)
  every_iff (r ∷ rules) src =
      let (there, back) = every_iff rules src in
      elim (Bool-cases (match r src)) [
        | inl hit ↦ (λ h. (hit, there (rw hit at h)), λ (x, y). rw (hit) (back y))
        | inr miss ↦ (
          λ h. absurd (true≢false (sym (rw miss at h))),
          λ (x, y). absurd (true≢false (sym x ∙ miss)),
        )
      ]

  any_iff :
      (rules : List (Rule Addr)) (src : Addr) → (any rules src ≡ false) ↔ All (Misses src) rules
  unfolding any
  any_iff [] src = (λ _. tt, λ _. refl)
  any_iff (r ∷ rules) src =
      let (there, back) = any_iff rules src in
      elim (Bool-cases (match r src)) [
        | inr miss ↦ (λ h. (miss, there (rw miss at h)), λ (x, y). rw (miss) (back y))
        | inl hit ↦
            (λ h. absurd (true≢false (rw hit at h)), λ (x, y). absurd (true≢false (sym hit ∙ x)))
      ]

  -- A rule made by `WhenAll` of one rule or more matches an address just if all of them do.
  when_all_iff :
      (r : Rule Addr) (rules : List (Rule Addr)) (src : Addr)
      → (match (when_all (r ∷ rules)) src ≡ true) ↔ All (Matches src) (r ∷ rules)
  unfolding when_all match
  when_all_iff r [] src = (λ h. (h, tt), λ (h, _). h)
  when_all_iff r (q ∷ rules) src = every_iff (r ∷ q ∷ rules) src

  -- A rule made by `WhenAny` misses an address just if each of its rules does.
  when_any_iff :
      (rules : List (Rule Addr)) (src : Addr)
      → (match (when_any rules) src ≡ false) ↔ All (Misses src) rules
  unfolding when_any match
  when_any_iff [] src = (λ _. tt, λ _. refl)
  when_any_iff (r ∷ []) src = (λ h. (h, tt), λ (h, _). h)
  when_any_iff (r ∷ q ∷ rules) src = any_iff (r ∷ q ∷ rules) src

  -- A rule made by `WhenNone` of one rule or more matches an address just if all of them match it, and
  -- not if they miss it: `negateRule` has no `Match` of its own, so it answers as the rule it wraps.
  when_none_iff :
      (r : Rule Addr) (rules : List (Rule Addr)) (src : Addr)
      → (match (when_none (r ∷ rules)) src ≡ true) ↔ All (Matches src) (r ∷ rules)
  unfolding when_none match
  when_none_iff r rules src = when_all_iff r rules src

  -- What `Accept` may answer: a connection that the rule lets through, or the transport's error.
  abbrev pub Passes : Option (Rule Addr) → Accepted Addr → Type 0
  Passes rule (conn a) = refuses rule a ≡ false
  Passes rule (failed e) = Unit

  abbrev pub Refused : Option (Rule Addr) → Accepted Addr → Type 0
  Refused rule (conn a) = refuses rule a ≡ true
  Refused rule (failed e) = ⊥

  abbrev pub Accepts : Option (Rule Addr) → List (Accepted Addr) → Option (Accept Addr) → Type 0
  Accepts rule l none = All (Refused rule) l
  Accepts rule l (some r) =
      (l ≡ map conn r.closed ++ r.result ∷ r.left)
      × All (λ (a : Addr). refuses rule a ≡ true) r.closed
      × Passes rule r.result

  close_first-Accepts :
      (rule : Option (Rule Addr)) (a : Addr) (l : List (Accepted Addr)) (o : Option (Accept Addr))
      → refuses rule a ≡ true
      → Accepts rule l o
      → Accepts rule (conn a ∷ l) (close_first a o)
  close_first-Accepts rule a l none h k = (h, k)
  close_first-Accepts rule a l (some r) h (e, f, g) =
      (ap (λ (x : List (Accepted Addr)). conn a ∷ x) e, (h, f), g)

  -- `Accept` of the firewall returns the first answer of the transport below that is an error or a
  -- connection that the rule does not refuse, and closes just the connections before it, which the rule
  -- refuses; it waits for more if all answers so far are such connections.
  pub accept_lem :
      (rule : Option (Rule Addr)) (l : List (Accepted Addr)) → Accepts rule l (accept rule l)
  unfolding accept
  accept_lem rule [] = tt
  accept_lem rule (failed e ∷ l) = (refl, tt, tt)
  accept_lem rule (conn a ∷ l) =
      if_intro (Accepts rule (conn a ∷ l)) (refuses rule a)
        (λ h. close_first-Accepts rule a l (accept rule l) h (accept_lem rule l))
        (λ h. (refl, tt, h))
