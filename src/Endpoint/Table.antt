-- ===== src/Endpoint/Table.antt =====
-- A Go map whose keys are texts or tokens: `find` for `m[k]`, `put` for `m[k] = v`, `remove` for
-- `delete(m, k)`.
use gogotelehash.Lob.Extra.{bytes_eq_refl, bytes_eq_sound}
use gogotelehash.Lob.Packet.{Bytes}
use gogotelehash.Lob.Parse.Fields.{bytes_eq}
use mathlib.Core.Bool.{true≢false}
use gogotelehash.Prelude.{
  ◌≡◌, refl, ap, sym, ◌∙◌, Option, none, some, List, [], ◌∷◌, if◌then◌else◌, inl, inr, true,
  Bool-cases,
}

-- The test at one of two equal keys.
moved : (a b k : Bytes) → bytes_eq a b ≡ true → bytes_eq a k ≡ bytes_eq b k
moved a b k e = ap (λ (z : Bytes). bytes_eq z k) (bytes_eq_sound a b e)

module _ {ℓ} {V : Type ℓ} where
  unfoldable pub find : Bytes → List (Bytes × V) → Option V
  find k [] = none
  find k ((j, v) ∷ m) = if bytes_eq j k then some v else find k m

  unfoldable pub put : Bytes → V → List (Bytes × V) → List (Bytes × V)
  put k v [] = (k, v) ∷ []
  put k v ((j, w) ∷ m) = let rest = put k v m in if bytes_eq j k then (k, v) ∷ m else (j, w) ∷ rest

  unfoldable pub remove : Bytes → List (Bytes × V) → List (Bytes × V)
  remove k [] = []
  remove k ((j, w) ∷ m) = let rest = remove k m in if bytes_eq j k then rest else (j, w) ∷ rest

  pub find-put :
      (k key : Bytes) (v : V) (m : List (Bytes × V))
      → find k (put key v m) ≡ (if bytes_eq key k then some v else find k m)
  unfolding find put
  find-put k key v [] = refl
  find-put k key v ((x, y) ∷ m) = elim (Bool-cases (bytes_eq x key)) [
    | inl same ↦ rw (same) (elim (Bool-cases (bytes_eq key k)) [
      | inl hit ↦ rw (hit) refl
      | inr miss ↦ rw (miss, moved x key k same ∙ miss) refl
    ])
    | inr other ↦ rw (other) (elim (Bool-cases (bytes_eq x k)) [
      | inr miss ↦ rw (miss) (find-put k key v m)
      | inl hit ↦ elim (Bool-cases (bytes_eq key k)) [
        | inr free ↦ rw (hit, free) refl
        | inl taken ↦
            let both : bytes_eq x key ≡ true = ap (bytes_eq x) (bytes_eq_sound key k taken) ∙ hit in
            absurd (true≢false (sym both ∙ other))
      ]
    ])
  ]

  pub find-put_same : (k : Bytes) (v : V) (m : List (Bytes × V)) → find k (put k v m) ≡ some v
  find-put_same k v m = find-put k k v m ∙ rw (bytes_eq_refl k) refl

  pub find-remove : (k : Bytes) (m : List (Bytes × V)) → find k (remove k m) ≡ none
  unfolding find remove
  find-remove k [] = refl
  find-remove k ((x, y) ∷ m) = elim (Bool-cases (bytes_eq x k)) [
    | inl same ↦ rw (same) (find-remove k m)
    | inr other ↦ rw (other, other) (find-remove k m)
  ]

  -- What was not there is not there after one more key is removed.
  pub find-remove-none :
      (k key : Bytes) (m : List (Bytes × V)) → find k m ≡ none → find k (remove key m) ≡ none
  unfolding find remove
  find-remove-none k key [] e = refl
  find-remove-none k key ((x, y) ∷ m) e = elim (Bool-cases (bytes_eq x k)) [
    | inl hit ↦ let found : some y ≡ none = sym (rw (hit) refl) ∙ e in absurd cc
    | inr miss ↦
        let deeper : find k m ≡ none = sym (rw (miss) refl) ∙ e in
        let later = find-remove-none k key m deeper in
        elim (Bool-cases (bytes_eq x key)) [
          | inl same ↦ rw (same) later
          | inr other ↦ rw (other, miss) later
        ]
  ]
