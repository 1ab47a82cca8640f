-- ===== src/Firewall/Tests.antt =====
-- transports/fw: a rule on addresses that are numbers.
use gogotelehash.Firewall.{Rule, match, func, Accepted, conn, failed, accept}
use gogotelehash.Firewall.Laws.{Accepts, accept_lem}
use gogotelehash.Prelude.{ℕ, ◌≡◌, refl, some, List, [], ◌∷◌, ltb}

abbrev below : ℕ → Rule ℕ
below n = func (λ a. ltb a n)

abbrev answers : List (Accepted ℕ)
answers = conn 8 ∷ conn 6 ∷ conn 2 ∷ failed 1 ∷ []

accept_lem_example : Accepts (some (below 5)) answers (accept (some (below 5)) answers)
accept_lem_example = accept_lem (some (below 5)) answers

accepts_third :
    accept (some (below 5)) answers
    ≡ some (record { result = conn 2; closed = 8 ∷ 6 ∷ []; left = failed 1 ∷ [] })
unfolding accept match
accepts_third = refl
