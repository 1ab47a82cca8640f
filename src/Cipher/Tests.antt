-- ===== src/Cipher/Tests.antt =====
-- e3x/cipherset: the model run on small inputs, and the theorems at concrete inputs.
mod Toy
mod Coding
mod Suite
mod Cs1a
use gogotelehash.Cipher.Tests.Coding.{
  decimal, decimal-IsJson, whole, base32_part, base32_part-AreTexts,
}
use gogotelehash.Cipher.Tests.Toy.{toy, toy-IsNacl, pad32}
use gogotelehash.Cipher.Answer.{Answer, ok, at_key, invalid_packet}
use gogotelehash.Cipher.Cs3a.{
  Nacl, Key, Handshake, Random, State, new_state, set_remote_key, apply_handshake, public,
}
use gogotelehash.Cipher.Cs3a.Line.{encrypt_packet, decrypt_packet}
use gogotelehash.Cipher.Cs3a.Line.RoundTrip.{Linked, decrypt_packet-encrypt_packet}
use gogotelehash.Cipher.Cs3a.Line.Nonce.{Sends}
use gogotelehash.Cipher.Cs3a.Link.{line_half, apply_handshake-Linked}
use gogotelehash.Cipher.Cs3a.Reach.{Gives, Reach, started}
use gogotelehash.Cipher.Cs3a.Message.{
  encrypt_message, decrypt_message, encrypt_handshake, decrypt_handshake, inner_handshake,
  without_at,
}
use gogotelehash.Cipher.Cs3a.Message.RoundTrip.{decrypt_handshake-encrypt_handshake, Speaks}
use gogotelehash.Cipher.Cs3a.Message.Opening.{set_remote_key-Speaks}
use gogotelehash.Cipher.Cs3a.Session.{pair, half, state_of, new_session, set_key}
use gogotelehash.Cipher.Token.{extract_token}
use gogotelehash.Lob.Coder
use gogotelehash.Lob.Coder.{encode, decode}
use gogotelehash.Lob.Packet.{Bytes, Header, Packet, Value, empty_header, ℤ, is_zero, is_binary}
use gogotelehash.Lob.Parse.{Json, parse_uint32, uint32_loop, parse_string, unescape}
use gogotelehash.Lob.Print.{write_to, print_digits, print_uint32}
use gogotelehash.Lob.RoundTrip.Canonical.{IsCanonical}
use gogotelehash.Prelude.{
  ℕ, ◌≡◌, refl, Option, some, none, List, length, ◌+◌, ◌-◌, ◌/◌, ap, true, [], ◌∷◌, ◌++◌, take,
  arith, sym, false, zero, Bool, ◌≤◌, ◌⊎◌,
}
use gogotelehash.Cipher.Parts.{parts_from_header, select_csid, apply_to_header}
use gogotelehash.Cipher.Parts.Laws.{
  select_csid_lem, parts_from_header-apply_to_header, AreParts, Common,
}
use gogotelehash.Lob.Extra.{get_uint32, set_uint32, set, get, find_extra}
use gogotelehash.Lob.Parse.Fields.{set_extra, bytes_eq, parse_header, parse_key}
use gogotelehash.Lob.Scan.{parse_prefix, scan_string, scan_any_object_value}
use mathlib.Core.Bool.{true≢false}
use gogotelehash.Prelude.Map.{lookup}

-- Numbers of one digit as JSON; the encoder ends with a newline.
abbrev digit_of : Bytes → Option Value
digit_of [] = none
digit_of (x ∷ rest) = some (Value.float64 (x - 48))

abbrev text_of_value : Value → Option Bytes
text_of_value (Value.int (ℤ.pos n)) = some (print_uint32 n ++ 10 ∷ [])
text_of_value _ = none

abbrev numbers : Json
numbers = record { unmarshal = digit_of; encode = text_of_value }

-- Two sides with private keys and line keys of one byte.
abbrev alice : Bytes
alice = 1 ∷ []

abbrev bob : Bytes
bob = 2 ∷ []

abbrev drawn : ℕ → Random
drawn n = record {
  nonce =
      10 ∷ 10 ∷ 10 ∷ 10 ∷ 10 ∷ 10 ∷ 10 ∷ 10 ∷ 10 ∷ 10 ∷ 10 ∷ 10 ∷ 10 ∷ 10 ∷ 10 ∷ 10 ∷ 10 ∷ 10 ∷ 10
      ∷ 10 ∷ 10 ∷ 10 ∷ 10 ∷ n ∷ [];
  prefix = 20 ∷ 20 ∷ 20 ∷ 20 ∷ 20 ∷ 20 ∷ 20 ∷ 20 ∷ 20 ∷ 20 ∷ 20 ∷ 20 ∷ 20 ∷ 20 ∷ 20 ∷ n ∷ [];
  line = some (pair toy (n ∷ []));
}

drawn-Gives : (n : ℕ) → Gives toy (drawn n)
drawn-Gives n = record { line = n ∷ []; made = refl; nonce_length = refl; prefix_length = refl }

abbrev alice_new : State
alice_new = state_of toy (new_session toy (pair toy alice) (3 ∷ []) (drawn 3))

abbrev bob_new : State
bob_new = state_of toy (new_session toy (pair toy bob) (4 ∷ []) (drawn 4))

made_alice : new_state toy (drawn 3) (pair toy alice) ≡ some alice_new
unfolding new_state
made_alice = refl

made_bob : new_state toy (drawn 4) (pair toy bob) ≡ some bob_new
unfolding new_state
made_bob = refl

abbrev alice_line : State
alice_line =
    (apply_handshake toy (drawn 5) (drawn 6) (half toy bob) (line_half bob_new) alice_new).0

abbrev bob_line : State
bob_line =
    (apply_handshake toy (drawn 7) (drawn 8) (half toy alice) (line_half alice_new) bob_new).0

alice_takes :
    apply_handshake toy (drawn 5) (drawn 6) (half toy bob) (line_half bob_new) alice_new
    ≡ (alice_line, true)
unfolding apply_handshake
alice_takes = refl

bob_takes :
    apply_handshake toy (drawn 7) (drawn 8) (half toy alice) (line_half alice_new) bob_new
    ≡ (bob_line, true)
unfolding apply_handshake
bob_takes = refl

alice_starts : Reach toy numbers alice_new
alice_starts = started (drawn 3) (pair toy alice) alice_new (drawn-Gives 3) made_alice

bob_starts : Reach toy numbers bob_new
bob_starts = started (drawn 4) (pair toy bob) bob_new (drawn-Gives 4) made_bob

apply_handshake-Linked_example : Linked alice_line bob_line × Linked bob_line alice_line
apply_handshake-Linked_example =
    apply_handshake-Linked toy toy-IsNacl numbers (drawn 5) (drawn 6) (drawn 7) (drawn 8)
      (half toy bob) (half toy alice) alice_new bob_new alice_line bob_line alice_starts bob_starts
      alice_takes bob_takes

alice_to_bob : Linked alice_line bob_line
alice_to_bob =
    (apply_handshake-Linked toy toy-IsNacl numbers (drawn 5) (drawn 6) (drawn 7) (drawn 8)
      (half toy bob) (half toy alice) alice_new bob_new alice_line bob_line alice_starts bob_starts
      alice_takes bob_takes).0

-- A packet of channel 3.
abbrev third : Header
third = record empty_header { c = 3; has_c = true }

third-IsCanonical : IsCanonical third
third-IsCanonical = record {
  no_bytes = refl;
  no_extra = refl;
  c_fits = omega arith;
  seq_fits = omega arith;
  ack_fits = omega arith;
  miss_fits = tt;
  type_text = tt;
  blank_c = λ e. absurd (true≢false e);
  blank_type = λ _. refl;
  blank_end = λ _. refl;
  blank_seq = λ _. refl;
  blank_ack = λ _. refl;
  blank_miss = λ _. refl;
  some_miss = λ e. absurd (true≢false (sym e));
}

abbrev third_text : Bytes
third_text = 123 ∷ 34 ∷ 99 ∷ 34 ∷ 58 ∷ 51 ∷ 125 ∷ []

write_third : write_to numbers third ≡ some third_text
unfolding write_to print_digits
write_third = refl

abbrev hello : Packet
hello = record { header = third; body = 104 ∷ 105 ∷ [] }

decrypt_packet-encrypt_packet_example :
    (a' : State) × (outer : Packet) × (wire : Bytes) × (encrypt_packet toy numbers hello alice_line
      ≡ ok (a', outer))
    × (decrypt_packet toy numbers outer bob_line ≡ ok hello)
    × (encode numbers outer ≡ Coder.ok wire)
    × (extract_token toy.sha256 wire ≡ alice_to_bob.token)
    × Linked a' bob_line
decrypt_packet-encrypt_packet_example =
    decrypt_packet-encrypt_packet toy numbers toy-IsNacl alice_line bob_line alice_to_bob hello
      third_text third-IsCanonical write_third (omega arith)

abbrev alice_keyed : State
alice_keyed = (set_remote_key toy (drawn 5) (half toy bob) alice_new).0

alice-Speaks : Speaks toy alice_keyed alice bob
alice-Speaks =
    set_remote_key-Speaks toy (drawn 3) (drawn 5) alice bob alice_new (drawn-Gives 3) made_alice

-- `{"at":5}` and Alice's public key.
alice_own : alice_keyed.local_key.pub_key ≡ some (toy.public_of alice)
unfolding set_remote_key
alice_own = refl

decrypt_handshake-encrypt_handshake_example :
    (p : Bytes) × (y : List (ℕ × Bytes)) × (encrypt_handshake toy whole decimal 5 base32_part
        alice_keyed
      ≡ ok p)
    × (decrypt_handshake toy whole decimal (some (pair toy bob)) p
        ≡ ok (record {
          key = half toy alice;
          line_key = half toy alice-Speaks.line;
          parts = y;
          at = 5;
        }))
    × ((k : ℕ) → lookup k y ≡ lookup k base32_part)
decrypt_handshake-encrypt_handshake_example =
    decrypt_handshake-encrypt_handshake toy toy-IsNacl alice_keyed alice bob alice-Speaks whole
      decimal 5 base32_part decimal-IsJson alice_own (omega arith) base32_part-AreTexts

-- Two sides with the cipher sets 1 and 3, iterated over in two orders.
abbrev first_keys : List (ℕ × ℕ)
first_keys = (1, 0) ∷ (3, 0) ∷ []

abbrev second_keys : List (ℕ × ℕ)
second_keys = (3, 0) ∷ (2, 0) ∷ (1, 0) ∷ []

selects_three : select_csid first_keys second_keys ≡ 3
unfolding select_csid
selects_three = refl

select_csid_example :
    (select_csid first_keys second_keys ≡ select_csid second_keys first_keys)
    × ((id : ℕ) → Common first_keys second_keys id → id ≤ select_csid first_keys second_keys)
    × ((select_csid first_keys second_keys ≡ 0)
        ⊎ Common first_keys second_keys (select_csid first_keys second_keys))
select_csid_example = select_csid_lem first_keys second_keys

-- The text of a part of cipher set 3a.
abbrev part : Bytes
part = take 52 (pad32 [] ++ pad32 [])

abbrev one_part : List (ℕ × Bytes)
one_part = (58, part) ∷ []

one_part-AreParts : AreParts one_part
one_part-AreParts = ((refl, tt), ((omega arith, refl), tt))

parts_from_header-apply_to_header_example :
    (y : List (ℕ × Bytes)) × (parts_from_header (apply_to_header one_part empty_header) ≡ some y)
    × ((k : ℕ) → lookup k y ≡ lookup k one_part)
parts_from_header-apply_to_header_example =
    parts_from_header-apply_to_header one_part one_part-AreParts
