-- ===== src/Cipher/Cs1a/Message/Cut.antt =====
-- e3x/cipherset/cs1a/cs1a_cipher.go: the parts of a message.
use gogotelehash.Cipher.Cs1a.{Suite}
use gogotelehash.Cipher.Cs1a.Message.{
  line_part, iv_part, cipher_part, signed_part, mac_part, ct_len,
}
use gogotelehash.Lob.Packet.{Bytes}
use mathlib.Core.List.{append_assoc}
use gogotelehash.Prelude.{
  ◌≡◌, ap, length, ◌+◌, sym, ◌∙◌, ◌++◌, arith, take, drop, length-append, take-append, drop-append,
}

-- The parts of a message are those it was joined of.
pub record Cut (S : Suite) (line iv box mac : Bytes) : Type 0 where
  pub line_is : line_part S ((line ++ (iv ++ box)) ++ mac) ≡ line
  pub iv_is : iv_part S ((line ++ (iv ++ box)) ++ mac) ≡ iv
  pub box_is : cipher_part S ((line ++ (iv ++ box)) ++ mac) ≡ box
  pub signed_is : signed_part S ((line ++ (iv ++ box)) ++ mac) ≡ line ++ (iv ++ box)
  pub mac_is : mac_part S ((line ++ (iv ++ box)) ++ mac) ≡ mac
  pub length_is : length ((line ++ (iv ++ box)) ++ mac) ≡ 29 + length box

module _ (S : Suite) (line iv box mac : Bytes) (l : length line ≡ 21) (n : length iv ≡ 4)
    (m : length mac ≡ 4) where
  abbrev front : Bytes
  front = line ++ (iv ++ box)

  abbrev joined : Bytes
  joined = front ++ mac

  length-front : length front ≡ 25 + length box
  length-front = omega (arith, length-append line (iv ++ box), length-append iv box)

  ct_len-joined : ct_len S joined ≡ length box
  ct_len-joined = omega (arith, length-front, length-append front mac)

  by_line : joined ≡ line ++ (iv ++ (box ++ mac))
  by_line = append_assoc line (iv ++ box) mac ∙ ap (λ r. line ++ r) (append_assoc iv box mac)

  behind_line : drop 21 joined ≡ iv ++ (box ++ mac)
  behind_line = ap (drop 21) by_line ∙ drop-append line (iv ++ (box ++ mac)) l

  behind_iv : drop 25 joined ≡ box ++ mac
  behind_iv =
      ap (drop 25) (by_line ∙ sym (append_assoc line iv (box ++ mac)))
      ∙ drop-append (line ++ iv) (box ++ mac) {n = 25} (omega (arith, length-append line iv))

  pub cut : Cut S line iv box mac
  cut = record {
    line_is = ap (take 21) by_line ∙ take-append line (iv ++ (box ++ mac)) l;
    iv_is = ap (take 4) behind_line ∙ take-append iv (box ++ mac) n;
    box_is = ap (λ r. take (ct_len S joined) r) behind_iv ∙ take-append box mac (sym ct_len-joined);
    signed_is = take-append front mac (omega (arith, length-front, ct_len-joined));
    mac_is = drop-append front mac (omega (arith, length-front, ct_len-joined));
    length_is = omega (arith, length-front, length-append front mac);
  }
