-- ===== src/Cipher/Answer.antt =====
-- e3x/cipherset/cipher_set.go: how a call of a cipher set ends.
use gogotelehash.Lob.Coder
use gogotelehash.Lob.Packet.{Bytes, Value}
use gogotelehash.Lob.Parse.Fields.{bytes_eq}
use gogotelehash.Prelude.{
  ℕ, Bool, true, false, Option, none, some, List, [], ◌∷◌, ltb, if◌then◌else◌,
}

pub data Answer {ℓ} (A : Type ℓ) : Type ℓ where
  ok : A → Answer A
  invalid_key invalid_state invalid_message invalid_packet encoding_error panics : Answer A

module _ {ℓ κ} {A : Type ℓ} {B : Type κ} where
  -- `if err != nil { return nil, err }` behind a call of lob.
  abbrev pub then_lob : Coder.Outcome A → (A → Answer B) → Answer B
  then_lob (Coder.ok a) k = k a
  then_lob Coder.invalid_packet k = encoding_error
  then_lob Coder.encoding_error k = encoding_error
  then_lob Coder.panics k = panics

  -- The same with an error of the cipher set in its place.
  abbrev pub or_else : Answer B → Coder.Outcome A → (A → Answer B) → Answer B
  or_else e (Coder.ok a) k = k a
  or_else e Coder.invalid_packet k = e
  or_else e Coder.encoding_error k = e
  or_else e Coder.panics k = panics

  abbrev pub some_or : Answer B → Option A → (A → Answer B) → Answer B
  some_or e none k = e
  some_or e (some a) k = k a

abbrev pub is_some {ℓ} : {A : Type ℓ} → Option A → Bool
is_some none = false
is_some (some a) = true

-- `buf.SetLen(n)` of a pooled buffer, which panics above its size.
abbrev pub with_len {ℓ} : {A : Type ℓ} → ℕ → Answer A → Answer A
with_len n k = if ltb 1500 n then panics else k

-- `delete(m, key)`
abbrev pub delete_extra : Bytes → List (Bytes × Value) → List (Bytes × Value)
delete_extra key [] = []
delete_extra key ((k, v) ∷ rest) =
    let m = delete_extra key rest in if bytes_eq k key then m else (k, v) ∷ m

abbrev pub at_key : Bytes
at_key = b'a' ∷ b't' ∷ []
