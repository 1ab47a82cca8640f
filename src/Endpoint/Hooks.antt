-- ===== src/Endpoint/Hooks.antt =====
-- e3x/hooks.go: the hooks of an endpoint, an exchange or a channel. A hook acts on a state that they share.
use gogotelehash.Prelude.{ℕ, List, [], ◌∷◌, Option, none, some, ◌≢◌}

-- The error that a hook returns.
pub data Returned : Type 0 where
  nothing stop_propagation : Returned
  failed : ℕ → Returned

module _ {S : Type 0} where
  -- What follows a hook: the next ones, if it returned no error.
  abbrev pub after : S × Returned → (S → S × Returned) → S × Returned
  after (s, nothing) next = next s
  after (s, stop_propagation) next = (s, nothing)
  after (s, failed e) next = (s, failed e)

  -- `trigger` of the callbacks of one kind; a callback that is nil returns no error.
  unfoldable pub trigger : List (Option (S → S × Returned)) → S → S × Returned
  trigger [] s = (s, nothing)
  trigger (none ∷ rest) s = trigger rest s
  trigger (some hook ∷ rest) s = after (hook s) (λ s'. trigger rest s')

  after-ne :
      (r : S × Returned) (next : S → S × Returned)
      → ((s : S) → (next s).1 ≢ stop_propagation)
      → (after r next).1 ≢ stop_propagation
  after-ne (s, nothing) next h e = h s e
  after-ne (s, stop_propagation) next h e = absurd cc
  after-ne (s, failed x) next h e = absurd cc

  -- Whatever the hooks do, their caller never sees the error by which one of them stops the others.
  pub trigger-ne :
      (hooks : List (Option (S → S × Returned))) (s : S) → (trigger hooks s).1 ≢ stop_propagation
  unfolding trigger
  trigger-ne [] s e = absurd cc
  trigger-ne (none ∷ rest) s e = trigger-ne rest s e
  trigger-ne (some hook ∷ rest) s e = after-ne (hook s) (λ s'. trigger rest s') (trigger-ne rest) e
