-- ===== src/ChannelSet/Tests.antt =====
-- e3x/channel_set.go: runs on a small table.
use gogotelehash.ChannelSet.{
  ChannelSet, add, all, remove, claim, find, get, idle, promise, promise_add, promise_cancel,
}
use gogotelehash.ChannelSet.Laws.{claim_lem}
use gogotelehash.Prelude.{ℕ, ◌≡◌, refl, true, false, none, some, [], ◌∷◌}

abbrev table : ChannelSet ℕ
table = record { locked = false; channels = (1, some 10) ∷ (3, some 30) ∷ [] }

add_5 :
    add 5 (some 50) table
    ≡ some (
      record { locked = false; channels = (1, some 10) ∷ (3, some 30) ∷ (5, some 50) ∷ [] },
      true,
    )
unfolding add
add_5 = refl

remove_3 : remove 3 table ≡ some (record { locked = false; channels = (1, some 10) ∷ [] }, true)
unfolding remove
remove_3 = refl

claim_lem_example :
    (d : ChannelSet ℕ) × (claim 5 table ≡ some (d, promise 5))
    × ((find 1 d ≡ none)
        × (claim 1 d ≡ none)
        × (get 1 d ≡ none)
        × (all d ≡ none)
        × (add 1 (some 50) d ≡ none)
        × (remove 1 d ≡ none)
        × (idle d ≡ none))
    × (get 1 (promise_add 5 (some 50) d) ≡ some (some 10))
    × (promise_cancel d ≡ table)
claim_lem_example = claim_lem 5 1 50 table refl refl
