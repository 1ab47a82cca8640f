-- ===== src/ChannelSet/Laws.antt =====
-- e3x/channel_set.go: what the calls do to the table.
use gogotelehash.ChannelSet.{
  ChannelSet, value, at, get, all, remove, promise, find, claim, promise_add, promise_cancel, add,
  idle, is_nil,
}
use gogotelehash.Prelude.Map.{lookup, insert, erase, lookup-insert, lookup-erase}
use gogotelehash.Prelude.{
  ℕ, ◌≡◌, arith, ap, false, not, ◌&&◌, none, some, ◌==◌, if◌then◌else◌, refl, sym, ◌∙◌, subst, inl,
  inr, Bool, true, Option, Bool-cases,
}
use mathlib.Core.Bool.{true≢false}

module _ {A : Type 0} where
  value_if :
      (b : Bool) (c : Option A) (o : Option (Option A))
      → value (if b then some c else o) ≡ (if b then c else value o)
  value_if true c o = refl
  value_if false c o = refl

  value_unless :
      (b : Bool) (o : Option (Option A))
      → value (if b then none else o) ≡ (if b then none else value o)
  value_unless true o = refl
  value_unless false o = refl

  is_nil-none : (o : Option A) → is_nil o ≡ true → o ≡ none
  is_nil-none none h = refl
  is_nil-none (some c) h = absurd (true≢false (sym h))

  absent :
      (id k : ℕ) (s : ChannelSet A)
      → is_nil (at id s) ≡ true
      → at k s ≡ (if id == k then none else at k s)
  absent id k s h = elim (Bool-cases (id == k)) [
    | inl same ↦
        rw (same) (subst (λ (n : ℕ). at n s ≡ none) (ground arith) (is_nil-none (at id s) h))
    | inr other ↦ rw (other) refl
  ]

  -- `Add` of a channel on a table that is not locked answers whether the number was free. If it
  -- was, the channel stands there afterwards, else the one that stood there stays; all other
  -- numbers, and the lock, are as they were.
  add_lem :
      (id k : ℕ) (c : A) (s : ChannelSet A)
      → s.locked ≡ false
      → (d : ChannelSet A) × (add id (some c) s ≡ some (d, is_nil (at id s)))
        × (d.locked ≡ false)
        × (at k d ≡ (if is_nil (at id s) && id == k then some c else at k s))
  unfolding add
  add_lem id k c s free =
      let hit = lookup-insert id k (some c) s.channels in
      elim (Bool-cases (is_nil (at id s))) [
        | inl empty ↦ (
          record s { channels = insert id (some c) s.channels },
          rw (free, empty) refl,
          free,
          rw (empty, hit) (value_if (id == k) (some c) (lookup k s.channels)),
        )
        | inr taken ↦ (s, rw (free, taken) refl, free, rw (taken) refl)
      ]

  -- `Remove` on a table that is not locked answers whether there was a channel under the number, and
  -- leaves none there; all other numbers, and the lock, are as they were.
  remove_lem :
      (id k : ℕ) (s : ChannelSet A)
      → s.locked ≡ false
      → (d : ChannelSet A) × (remove id s ≡ some (d, not (is_nil (at id s))))
        × (d.locked ≡ false)
        × (at k d ≡ (if id == k then none else at k s))
  unfolding remove
  remove_lem id k s free =
      let gone = lookup-erase id k s.channels in
      elim (Bool-cases (is_nil (at id s))) [
        | inl empty ↦ (s, rw (free, empty) refl, free, absent id k s empty)
        | inr taken ↦ (
          record s { channels = erase id s.channels },
          rw (free, taken) refl,
          free,
          rw (gone) (value_unless (id == k) (lookup k s.channels)),
        )
      ]

  -- The second part of `GetOrAdd` on a table that is not locked, where there is no channel under the
  -- number: it gives the promise of one, and until the promise is kept or cancelled every other call
  -- waits. Keeping it puts the channel there and nowhere else, cancelling it leaves the table as it was.
  pub claim_lem :
      (id k : ℕ) (c : A) (s : ChannelSet A)
      → s.locked ≡ false
      → at id s ≡ none
      → (d : ChannelSet A) × (claim id s ≡ some (d, promise id))
        × ((find k d ≡ none)
            × (claim k d ≡ none)
            × (get k d ≡ none)
            × (all d ≡ none)
            × (add k (some c) d ≡ none)
            × (remove k d ≡ none)
            × (idle d ≡ none))
        × (get k (promise_add id (some c) d) ≡ some (if id == k then some c else at k s))
        × (promise_cancel d ≡ s)
  unfolding claim find get all add remove idle promise_add promise_cancel
  claim_lem id k c s free empty =
      let hit = lookup-insert id k (some c) s.channels in
      (
        record s { locked = true },
        rw (free, empty) refl,
        (refl, refl, refl, refl, refl, refl, refl),
        ap some (ap value hit ∙ value_if (id == k) (some c) (lookup k s.channels)),
        ap (λ (b : Bool). record s { locked = b }) (sym free),
      )
