-- ===== src/ChannelSet.antt =====
-- e3x/channel_set.go: the table of an exchange's channels. A `*Channel` is a value of any type `A`, or
-- nil (`none`); a nil map is the empty one. The lock is held across calls by the promise of `GetOrAdd`,
-- so it is part of the state: `none` is a call that waits for it.
pub mod Laws
pub mod Tests
use gogotelehash.Prelude.Map.{lookup, insert, erase}
use gogotelehash.Prelude.{
  ℕ, Bool, true, false, not, Option, none, some, List, [], ◌∷◌, ltb, length, if◌then◌else◌, ◌-◌,
  ◌*◌, ◌/◌, ap, map, take,
}

pub record ChannelSet (A : Type 0) : Type 0 where
  pub locked : Bool
  pub channels : List (ℕ × Option A)

-- The two results of `GetOrAdd`: a channel, or the promise of one under the number.
pub data Found (A : Type 0) : Type 0 where
  channel : A → Found A
  promise : ℕ → Found A

module _ {A : Type 0} where
  -- `set.channels[id]`
  abbrev pub value : Option (Option A) → Option A
  value none = none
  value (some c) = c

  abbrev pub at : ℕ → ChannelSet A → Option A
  at id s = value (lookup id s.channels)

  -- A call that takes the lock and gives it back.
  abbrev pub under_lock {ℓ} : {B : Type ℓ} → ChannelSet A → B → Option B
  under_lock s b = if s.locked then none else some b

  unfoldable pub get : ℕ → ChannelSet A → Option (Option A)
  get id s = under_lock s (at id s)

  abbrev pub entries : List (ℕ × Option A) → List (Option A)
  entries [] = []
  entries ((id, c) ∷ m) = c ∷ entries m

  unfoldable pub all : ChannelSet A → Option (List (Option A))
  all s = under_lock s (entries s.channels)

  abbrev pub is_nil : Option A → Bool
  is_nil none = true
  is_nil (some c) = false

  unfoldable pub remove : ℕ → ChannelSet A → Option (ChannelSet A × Bool)
  remove id s =
      under_lock s (
        if is_nil (at id s)
        then (s, false)
        else (record s { channels = erase id s.channels }, true))

  abbrev pub found : ℕ → ChannelSet A → Option A → ChannelSet A × Found A
  found id s (some c) = (s, channel c)
  found id s none = (record s { locked = true }, promise id)

  -- Without the window between the two locks: `find` is the call's first part, `claim` its second.
  unfoldable pub find : ℕ → ChannelSet A → Option (Option A)
  find id s = under_lock s (at id s)

  unfoldable pub claim : ℕ → ChannelSet A → Option (ChannelSet A × Found A)
  claim id s = under_lock s (found id s (at id s))

  -- `GetOrAdd`, where nothing comes between its two parts.
  unfoldable pub get_or_add : ℕ → ChannelSet A → Option (ChannelSet A × Found A)
  unfolding find claim
  get_or_add id s = elim (find id s) [
    | none ↦ none
    | some (some c) ↦ some (s, channel c)
    | some none ↦ claim id s
  ]

  -- `promise.Add` and `promise.Cancel`, which the holder of the lock calls.
  unfoldable pub promise_add : ℕ → Option A → ChannelSet A → ChannelSet A
  promise_add id c s = record { locked = false; channels = insert id c s.channels }

  unfoldable pub promise_cancel : ChannelSet A → ChannelSet A
  promise_cancel s = record s { locked = false }

  unfoldable pub add : ℕ → Option A → ChannelSet A → Option (ChannelSet A × Bool)
  add id c s = under_lock s (
      if is_nil (at id s)
      then (record s { channels = insert id c s.channels }, true)
      else (s, false))

  unfoldable pub idle : ChannelSet A → Option Bool
  idle s = under_lock s (not (ltb 0 (length s.channels)))
