-- ===== src/Cipher/Tests/Cs1a.antt =====
-- e3x/cipherset/cs1a: the theorems at concrete inputs.
use gogotelehash.Cipher.Tests.{hello, third_text, third-IsCanonical, write_third, numbers}
use gogotelehash.Cipher.Tests.Suite.{plain_suite, plain-IsSymmetric, plain_laws}
use gogotelehash.Cipher.Answer.{ok}
use gogotelehash.Cipher.Cs1a.{Key, State}
use gogotelehash.Cipher.Cs1a.Fold.{fold, fold_half}
use gogotelehash.Cipher.Cs1a.Line.{encrypt_packet, decrypt_packet}
use gogotelehash.Cipher.Cs1a.Line.RoundTrip.{Linked, decrypt_packet-encrypt_packet_cs1a}
use gogotelehash.Cipher.Cs1a.Message.Whole.{pair, half}
use gogotelehash.Lob.Packet.{Bytes, Packet}
use gogotelehash.Prelude.{ℕ, ◌≡◌, refl, some, [], ◌∷◌, arith}

folded : fold (1 ∷ 2 ∷ 3 ∷ 4 ∷ 5 ∷ 6 ∷ 7 ∷ 8 ∷ []) 2 ≡ some (0 ∷ 8 ∷ [])
unfolding fold fold_half
folded = refl

abbrev key : ℕ → Key plain_suite
key n = pair plain_suite plain_laws (n ∷ [])

abbrev known : ℕ → Key plain_suite
known n = half plain_suite plain_laws (n ∷ [])

abbrev sixteen : ℕ → Bytes
sixteen n = n ∷ 0 ∷ 0 ∷ 0 ∷ 0 ∷ 0 ∷ 0 ∷ 0 ∷ 0 ∷ 0 ∷ 0 ∷ 0 ∷ 0 ∷ 0 ∷ 0 ∷ 0 ∷ []

abbrev alice : State plain_suite
alice = record {
  local_key = key 1;
  remote_key = some (known 2);
  local_line_key = some (key 3);
  remote_line_key = some (known 4);
  local_token = some (sixteen 3);
  remote_token = some (sixteen 4);
  line_encryption_key = some (sixteen 34);
  line_decryption_key = some (sixteen 43);
}

abbrev bob : State plain_suite
bob = record {
  local_key = key 2;
  remote_key = some (known 1);
  local_line_key = some (key 4);
  remote_line_key = some (known 3);
  local_token = some (sixteen 4);
  remote_token = some (sixteen 3);
  line_encryption_key = some (sixteen 43);
  line_decryption_key = some (sixteen 34);
}

alice_to_bob : Linked plain_suite alice bob
alice_to_bob = record {
  key = sixteen 34;
  encrypts = refl;
  decrypts = refl;
  token = sixteen 4;
  writes = refl;
  found_by = refl;
  token_length = refl;
}

abbrev drawn : Bytes
drawn = 9 ∷ 8 ∷ 7 ∷ 6 ∷ []

decrypt_packet-encrypt_packet_cs1a_example :
    (outer : Packet) × (encrypt_packet plain_suite numbers drawn hello alice ≡ ok outer)
    × (decrypt_packet plain_suite numbers outer bob ≡ ok hello)
decrypt_packet-encrypt_packet_cs1a_example =
    decrypt_packet-encrypt_packet_cs1a plain_suite numbers alice bob drawn hello third_text
      plain-IsSymmetric alice_to_bob refl third-IsCanonical write_third (omega arith)
