-- ===== src/Cipher/Tests/Toy.antt =====
-- golang.org/x/crypto: functions that meet the contract of cipher set 3a, which hide nothing.
use gogotelehash.Cipher.Cs3a.{Nacl}
use gogotelehash.Cipher.Cs3a.Contract.{IsNacl}
use gogotelehash.Cipher.Token.{zero_token}
use gogotelehash.Lob.Extra.{bytes_eq_refl}
use gogotelehash.Lob.Parse.Fields.{bytes_eq}
use gogotelehash.Lob.Packet.{Bytes}
use gogotelehash.Prelude.{
  ℕ, ◌+◌, ◌≡◌, refl, ap, Option, some, none, length, ◌∙◌, [], ◌∷◌, ◌++◌, arith, if◌then◌else◌, take,
  drop, length-append, length-take, take-append, drop-append,
}

abbrev pub pad16 : Bytes → Bytes
pad16 l = take 16 (l ++ zero_token)

abbrev pub pad32 : Bytes → Bytes
pad32 l = take 32 (l ++ (zero_token ++ zero_token))

length-pad16 : (l : Bytes) → length (pad16 l) ≡ 16
length-pad16 l = length-take 16 (l ++ zero_token) (omega (arith, length-append l zero_token))

pub length-pad32 : (l : Bytes) → length (pad32 l) ≡ 32
length-pad32 l =
    length-take 32 (l ++ (zero_token ++ zero_token))
      (omega (arith, length-append l (zero_token ++ zero_token)))

abbrev pub added : Bytes → Bytes → Bytes
added [] b = b
added (x ∷ a) [] = x ∷ a
added (x ∷ a) (y ∷ b) = (x + y) ∷ added a b

added_comm : (a b : Bytes) → added a b ≡ added b a
added_comm [] [] = refl
added_comm [] (y ∷ b) = refl
added_comm (x ∷ a) [] = refl
added_comm (x ∷ a) (y ∷ b) =
    ap (λ (z : ℕ). z ∷ added a b) (omega arith) ∙ ap (λ (l : Bytes). (y + x) ∷ l) (added_comm a b)

-- A box is a tag and the message.
abbrev pub opened : Bytes → Bytes → Option Bytes
opened tag b = if bytes_eq (take 16 b) tag then some (drop 16 b) else none

abbrev pub toy : Nacl
toy = record {
  public_of = pad32;
  precompute = λ pub_key prv. added pub_key (pad32 prv);
  seal = λ m n k. pad16 (added n k) ++ m;
  open_box = λ b n k. opened (pad16 (added n k)) b;
  poly_sum = λ p k. pad16 k;
  poly_verify = λ mac p k. bytes_eq mac (pad16 k);
  sha256 = pad32;
}

opens : (tag m : Bytes) → length tag ≡ 16 → opened tag (tag ++ m) ≡ some m
opens tag m t =
    (λ i. if bytes_eq (take-append tag m t i) tag then some (drop-append tag m t i) else none)
    ∙ rw (bytes_eq_refl tag) refl

pub toy-IsNacl : IsNacl toy
toy-IsNacl = record {
  agree = λ a b. added_comm (pad32 a) (pad32 b);
  open_seal = λ m n k. opens (pad16 (added n k)) m (length-pad16 (added n k));
  length_seal =
      λ m n k. omega (arith, length-append (pad16 (added n k)) m, length-pad16 (added n k));
  verify_sum = λ p k. bytes_eq_refl (pad16 k);
  length_sum = λ p k. length-pad16 k;
  length_sha = λ p. length-pad32 p;
  length_public = λ a. length-pad32 a;
}
