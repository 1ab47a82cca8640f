-- ===== src/Cipher/Tests/Suite.antt =====
-- crypto and the curve of cipher set 1a: functions that meet its contract, which hide nothing.
use gogotelehash.Cipher.Cs1a.{Suite}
use gogotelehash.Cipher.Cs1a.Contract.{IsSuite, IsSymmetric, IsCurve, zeros}
use gogotelehash.Cipher.Tests.Toy.{pad32, length-pad32}
use gogotelehash.Lob.Packet.{Bytes}
use gogotelehash.Prelude.{
  ◌<◌, ℕ, ◌+◌, ◌≡◌, refl, ap, Option, some, none, length, zero, suc, ◌-◌, ◌∙◌, [], ◌∷◌, ◌++◌, arith,
  ltb, if◌then◌else◌,
}

abbrev total : Bytes → ℕ
total [] = 0
total (x ∷ b) = x + total b

total-zeros : (b : Bytes) (n : ℕ) → total (b ++ zeros n) ≡ total b
total-zeros [] zero = refl
total-zeros [] (suc n) = omega (arith, total-zeros [] n)
total-zeros (x ∷ b) n = ap (λ (t : ℕ). x + t) (total-zeros b n)

abbrev flipped : ℕ → ℕ
flipped x = if ltb x 256 then 255 - x else x

abbrev flip_all : Bytes → Bytes
flip_all [] = []
flip_all (x ∷ b) = flipped x ∷ flip_all b

flip_all-flip_all : (b : Bytes) → flip_all (flip_all b) ≡ b
flip_all-flip_all [] = refl
flip_all-flip_all (x ∷ b) =
    let twice : flipped (flipped x) ≡ x = ground arith in
    ap (λ (y : ℕ). y ∷ flip_all (flip_all b)) twice
    ∙ ap (λ (l : Bytes). x ∷ l) (flip_all-flip_all b)

length-flip_all : (b : Bytes) → length (flip_all b) ≡ length b
length-flip_all [] = refl
length-flip_all (x ∷ b) = ap suc (length-flip_all b)

abbrev head_of : Bytes → Option ℕ
head_of [] = none
head_of (x ∷ b) = some x

abbrev pub plain_suite : Suite
plain_suite = record {
  Point = ℕ;
  unmarshal = head_of;
  marshal = λ p. p ∷ zeros 20;
  greater = λ p q. ltb q p;
  shared = λ p d. some ((p + total d) ∷ []);
  sha256 = pad32;
  hmac = λ k m. pad32 (total k ∷ m);
  ctr = λ k iv m. flip_all m;
}

pub plain-IsSymmetric : IsSymmetric plain_suite
plain-IsSymmetric = record {
  ctr_ctr = λ k iv m. flip_all-flip_all m;
  length_ctr = λ k iv m. length-flip_all m;
  length_sha = λ m. length-pad32 m;
  length_hmac = λ k m. length-pad32 (total k ∷ m);
  padded = λ k m n h. ap (λ (t : ℕ). pad32 (t ∷ m)) (total-zeros k n);
}

abbrev pub plain_curve : IsCurve plain_suite
plain_curve = record {
  IsScalar = λ d. 0 < total d;
  point_of = λ d. total d;
  secret = λ a b. (total a + total b) ∷ [];
  shares = λ a b ha hb. refl;
  agree = λ a b ha hb. ap (λ (t : ℕ). t ∷ []) (omega arith);
  secret_length = λ a b ha hb. omega arith;
  unmarshal_marshal = λ p h. refl;
  length_marshal = λ p h. refl;
}

abbrev pub plain_laws : IsSuite plain_suite
plain_laws = record { symmetric = plain-IsSymmetric; curve = plain_curve }
