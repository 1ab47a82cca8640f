-- ===== src/Cipher/Cs1a/Message/Whole.antt =====
-- e3x/cipherset/cs1a/cs1a_cipher.go: a message that was made for a key, and how its owner reads it.
use gogotelehash.Cipher.Answer.{Answer, ok, invalid_message, panics, some_or, is_some}
use gogotelehash.Cipher.Cs1a.{Suite, Key, State, Handshake, nil_or}
use gogotelehash.Cipher.Cs1a.Contract.{IsSuite, zeros}
use gogotelehash.Cipher.Cs1a.Fold.{fold}
use gogotelehash.Cipher.Cs1a.Message.{
  wide, with_aes_key, signed, encrypt_to, encrypt_with, encrypt_message, can_encrypt_message,
  iv_part, verified, opened, decrypt_message, checked,
}
use gogotelehash.Cipher.Cs1a.Message.Cut.{Cut, cut}
use gogotelehash.Lob.Extra.{bytes_eq_refl}
use gogotelehash.Lob.Packet.{Bytes, ℤ}
use gogotelehash.Lob.Parse.{Json}
use gogotelehash.Lob.Parse.Fields.{bytes_eq}
use mathlib.Core.List.{append_assoc}
use gogotelehash.Prelude.{
  ℕ, ◌≡◌, ap, some, List, length, ◌+◌, sym, ◌∙◌, none, ◌++◌, arith, if◌then◌else◌, length-append,
  ◌≤◌, true, false, not, ◌&&◌, ltb, ◌==◌,
}

module _ (S : Suite) (laws : IsSuite S) where
  abbrev pub pair : Bytes → Key S
  pair p = record { point = some (laws.curve.point_of p); prv = some p }

  abbrev pub half : Bytes → Key S
  half p = record { point = some (laws.curve.point_of p); prv = none }

-- `a` has the private key `mine`, the public half of `theirs`, and the line key `line`.
pub record Speaks (S : Suite) (laws : IsSuite S) (a : State S) (mine theirs line : Bytes)
    : Type 0 where
  pub local : a.local_key ≡ pair S laws mine
  pub local_line : a.local_line_key ≡ some (pair S laws line)
  pub mine_is : laws.curve.IsScalar mine
  pub theirs_is : laws.curve.IsScalar theirs
  pub line_is : laws.curve.IsScalar line
  pub remote : a.remote_key ≡ some (half S laws theirs)

module _ (S : Suite) (laws : IsSuite S) (mine theirs line iv plain aes mac : Bytes) where
  abbrev pub sealed_box : Bytes
  sealed_box = S.ctr aes (wide iv) plain

  abbrev pub signed_front : Bytes
  signed_front = S.marshal (laws.curve.point_of line) ++ (iv ++ sealed_box)

  abbrev pub whole : Bytes
  whole = signed_front ++ mac

  -- What the sender chose: the key of AES and the sum.
  pub record Made : Type 0 where
    pub mine_is : laws.curve.IsScalar mine
    pub theirs_is : laws.curve.IsScalar theirs
    pub line_is : laws.curve.IsScalar line
    pub iv_length : length iv ≡ 4
    pub mac_length : length mac ≡ 4
    pub aes_is : fold (S.sha256 (laws.curve.secret theirs line)) 16 ≡ some aes
    pub mac_is : fold (S.hmac (laws.curve.secret theirs mine ++ iv) signed_front) 4 ≡ some mac

  module _ (made : Made) where
    pub plain-Cut : Cut S (S.marshal (laws.curve.point_of line)) iv sealed_box mac
    plain-Cut =
        cut S (S.marshal (laws.curve.point_of line)) iv sealed_box mac
          (laws.curve.length_marshal line made.line_is) made.iv_length made.mac_length

    encrypt_with-whole :
        (a : State S)
        → Speaks S laws a mine theirs line
        → encrypt_with S iv a.local_line_key a.remote_key plain a ≡ ok whole
    encrypt_with-whole a s =
        let point = laws.curve.point_of theirs in
        (λ i. encrypt_with S iv (s.local_line i) (s.remote i) plain a)
        ∙ (λ i. encrypt_to S iv (pair S laws line) point plain (record a { local_key = s.local i }))
        ∙ ap
            (λ o. with_aes_key S o (λ aes.
              signed S (nil_or (S.shared point mine) ++ iv)
                (S.marshal (laws.curve.point_of line) ++ (iv ++ S.ctr aes (wide iv) plain))))
            (laws.curve.shares theirs line made.theirs_is made.line_is)
        ∙ ap
            (λ o. some_or panics o (λ aes.
              signed S (nil_or (S.shared point mine) ++ iv)
                (S.marshal (laws.curve.point_of line) ++ (iv ++ S.ctr aes (wide iv) plain))))
            made.aes_is
        ∙ (λ i.
            signed S (nil_or (laws.curve.shares theirs mine made.theirs_is made.mine_is i) ++ iv)
              signed_front)
        ∙ ap (λ o. some_or panics o (λ mac. ok (signed_front ++ mac))) made.mac_is

    pub encrypt_message-whole :
        (a : State S)
        → Speaks S laws a mine theirs line
        → length plain ≤ 1471
        → encrypt_message S iv plain a ≡ ok whole
    unfolding encrypt_message
    encrypt_message-whole a s fits =
        let room : ltb 1500 (21 + 4 + length plain + 4) ≡ false = ground arith in
        let ready : can_encrypt_message S a ≡ true =
          (λ i. is_some (s.remote i) && is_some (s.local_line i)) in
        rw (room, ready) (encrypt_with-whole a s)

    pub opened-whole :
        {A : Type 0} (k : S.Point → Bytes → Answer A)
        → opened S theirs whole k ≡ k (laws.curve.point_of line) plain
    opened-whole k =
        let c = plain-Cut in
        (λ i. some_or invalid_message (S.unmarshal (c.line_is i)) (λ e.
          some_or invalid_message (S.shared e theirs) (λ secret.
            some_or panics (fold (S.sha256 secret) 16)
              (λ aes. k e (S.ctr aes (wide (c.iv_is i)) (c.box_is i))))))
        ∙ ap
            (λ o. some_or invalid_message o (λ e.
              some_or invalid_message (S.shared e theirs) (λ secret.
                some_or panics (fold (S.sha256 secret) 16)
                  (λ aes. k e (S.ctr aes (wide iv) sealed_box)))))
            (laws.curve.unmarshal_marshal line made.line_is)
        ∙ ap
            (λ o. some_or invalid_message o (λ secret.
              some_or panics (fold (S.sha256 secret) 16)
                (λ aes. k (laws.curve.point_of line) (S.ctr aes (wide iv) sealed_box))))
            (laws.curve.shares line theirs made.line_is made.theirs_is)
        ∙ ap
            (λ secret.
              some_or panics (fold (S.sha256 secret) 16)
                (λ aes. k (laws.curve.point_of line) (S.ctr aes (wide iv) sealed_box)))
            (laws.curve.agree line theirs made.line_is made.theirs_is)
        ∙ ap
            (λ o.
              some_or panics o
                (λ aes. k (laws.curve.point_of line) (S.ctr aes (wide iv) sealed_box)))
            made.aes_is
        ∙ ap (k (laws.curve.point_of line)) (laws.symmetric.ctr_ctr aes (wide iv) plain)

    verified-whole :
        {A : Type 0} (key : Bytes) (k : Answer A)
        → S.hmac key signed_front ≡ S.hmac (laws.curve.secret theirs mine ++ iv) signed_front
        → verified S key whole k ≡ k
    verified-whole key k e =
        let c = plain-Cut in
        (λ i.
          some_or panics (fold (S.hmac key (c.signed_is i)) 4)
            (λ mac'. if not (bytes_eq (c.mac_is i) mac') then invalid_message else k))
        ∙ ap
            (λ h.
              some_or panics (fold h 4)
                (λ mac'. if not (bytes_eq mac mac') then invalid_message else k))
            e
        ∙ ap
            (λ o. some_or panics o (λ mac'. if not (bytes_eq mac mac') then invalid_message else k))
            made.mac_is
        ∙ ap (λ b. if not b then invalid_message else k) (bytes_eq_refl mac)

    pub decrypt_message-whole :
        decrypt_message S (some (pair S laws theirs)) (some (half S laws mine)) whole ≡ ok plain
    unfolding decrypt_message
    decrypt_message-whole =
        let c = plain-Cut in
        let long : ltb (length whole) 29 ≡ false = ground (arith, c.length_is) in
        let key : nil_or (S.shared (laws.curve.point_of mine) theirs) ++ iv_part S whole
            ≡ laws.curve.secret theirs mine ++ iv =
          (λ i. nil_or (laws.curve.shares mine theirs made.mine_is made.theirs_is i) ++ c.iv_is i)
          ∙ ap (λ z. z ++ iv) (laws.curve.agree mine theirs made.mine_is made.theirs_is) in
        rw (long) (
          verified-whole (nil_or (S.shared (laws.curve.point_of mine) theirs) ++ iv_part S whole)
            (opened S theirs whole (λ e out. ok out)) (ap (λ k. S.hmac k signed_front) key)
          ∙ opened-whole (λ e out. ok out))

    -- The sum of a handshake is tested under the wide nonce, whose zeros HMAC adds anyway.
    wide_key :
        S.hmac
          (nil_or (S.shared (laws.curve.point_of mine) theirs) ++ wide (iv_part S whole))
          signed_front
        ≡ S.hmac (laws.curve.secret theirs mine ++ iv) signed_front
    wide_key =
        let c = plain-Cut in
        let secret = laws.curve.secret theirs mine in
        let short : length (secret ++ iv) + 12 ≤ 64 = omega (
          arith,
          length-append secret iv,
          laws.curve.secret_length theirs mine made.theirs_is made.mine_is,
          made.iv_length,
        ) in
        (λ i.
          S.hmac
            (nil_or (laws.curve.shares mine theirs made.mine_is made.theirs_is i)
              ++ wide (c.iv_is i))
            signed_front)
        ∙ ap (λ z. S.hmac (z ++ wide iv) signed_front)
            (laws.curve.agree mine theirs made.mine_is made.theirs_is)
        ∙ ap (λ k. S.hmac k signed_front) (sym (append_assoc secret iv (zeros 12)))
        ∙ laws.symmetric.padded (secret ++ iv) signed_front 12 short

    module _ (truncate : ℕ → ℤ) (j : Json) where
      -- The handshake of the sender at a time and with its parts.
      abbrev pub told : ℕ → List (ℕ × Bytes) → Handshake S
      told at compact = record {
        key = half S laws mine;
        line_key = half S laws line;
        parts = compact;
        at = at;
      }

      pub checked-whole :
          (at : ℕ) (compact : List (ℕ × Bytes)) (body : Bytes)
          → body ≡ S.marshal (laws.curve.point_of mine)
          → checked S truncate j theirs whole (laws.curve.point_of line) at compact body
            ≡ ok (told at compact)
      checked-whole at compact body whose =
          let size : (length (S.marshal (laws.curve.point_of mine)) == 21) ≡ true =
            ground (arith, laws.curve.length_marshal mine made.mine_is) in
          ap (checked S truncate j theirs whole (laws.curve.point_of line) at compact) whose
          ∙ rw (size, laws.curve.unmarshal_marshal mine made.mine_is)
              (verified-whole
                (nil_or (S.shared (laws.curve.point_of mine) theirs) ++ wide (iv_part S whole))
                (ok (told at compact)) wide_key)
