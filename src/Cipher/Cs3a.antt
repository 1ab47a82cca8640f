-- ===== src/Cipher/Cs3a.antt =====
-- e3x/cipherset/cs3a/cs3a_cipher.go: cipher set 3a. The box of NaCl, poly1305 and SHA-256 are parameters,
-- and so is what the source of random numbers gives.
pub mod Contract
pub mod Message
pub mod Session
pub mod Link
pub mod Reach
pub mod Line
use gogotelehash.Cipher.Answer.{is_some}
use gogotelehash.Cipher.Token.{token_of, zero_token}
use gogotelehash.Lob.Packet.{Bytes}
use gogotelehash.Lob.Parse.Fields.{bytes_eq}
use gogotelehash.Prelude.{
  ℕ, zero, suc, ◌+◌, ◌-◌, ◌/◌, ◌<◌, ap, Bool, true, false, not, ◌&&◌, ◌||◌, Option, none, some,
  List, [], ◌∷◌, ◌++◌, ltb, ◌==◌, if◌then◌else◌, length,
}

abbrev pub len_key : ℕ
len_key = 32

abbrev pub len_nonce : ℕ
len_nonce = 24

abbrev pub len_auth : ℕ
len_auth = 16

-- golang.org/x/crypto: `precompute pub prv`, `seal message nonce key`, `open_box box nonce key`,
-- `poly_sum message key`, `poly_verify mac message key`; a key pair is `public_of prv` and `prv`.
pub record Nacl : Type 0 where
  pub public_of : Bytes → Bytes
  pub precompute : Bytes → Bytes → Bytes
  pub seal : Bytes → Bytes → Bytes → Bytes
  pub open_box : Bytes → Bytes → Bytes → Option Bytes
  pub poly_sum : Bytes → Bytes → Bytes
  pub poly_verify : Bytes → Bytes → Bytes → Bool
  pub sha256 : Bytes → Bytes

-- `key`; a nil pointer is `none`, here and below.
pub record Key : Type 0 where
  pub pub_key : Option Bytes
  pub prv_key : Option Bytes

abbrev pub bytes_or_nil : Option Bytes → Bytes
bytes_or_nil none = []
bytes_or_nil (some b) = b

-- `Public()`
abbrev pub public : Key → Bytes
public k = bytes_or_nil k.pub_key

abbrev pub private : Key → Bytes
private k = bytes_or_nil k.prv_key

abbrev pub can_sign : Option Key → Bool
can_sign none = false
can_sign (some k) = is_some k.prv_key

abbrev pub can_encrypt : Option Key → Bool
can_encrypt none = false
can_encrypt (some k) = is_some k.pub_key

-- `DecodeKeyBytes`
abbrev pub key_bytes : Bytes → Option (Option Bytes)
key_bytes [] = some none
key_bytes (b ∷ rest) = if length (b ∷ rest) == len_key then some (some (b ∷ rest)) else none

abbrev pub make_key : Option (Option Bytes) → Option (Option Bytes) → Option Key
make_key none p = none
make_key (some k) none = none
make_key (some k) (some p) = some (record { pub_key = k; prv_key = p })

unfoldable pub decode_key_bytes : Bytes → Bytes → Option Key
decode_key_bytes k p = make_key (key_bytes k) (key_bytes p)

pub record State : Type 0 where
  pub local_key : Key
  pub remote_key : Option Key
  pub local_line_key : Option Key
  pub remote_line_key : Option Key
  pub local_token : Option Bytes
  pub remote_token : Option Bytes
  pub mac_key_base : Option Bytes
  pub line_encryption_key : Option Bytes
  pub line_decryption_key : Option Bytes
  pub nonce : Option Bytes
  pub pkt_nonce_prefix : Option Bytes
  pub pkt_nonce_suffix : ℕ

-- `handshake`
pub record Handshake : Type 0 where
  pub key : Key
  pub line_key : Key
  pub parts : List (ℕ × Bytes)
  pub at : ℕ

-- What `rand.Reader` gives to one call of `update`; making a line key may fail.
pub record Random : Type 0 where
  pub nonce : Bytes
  pub prefix : Bytes
  pub line : Option Key

abbrev pub or_new {ℓ} : {A : Type ℓ} → Option A → Option A → Option A
or_new none new = new
or_new (some a) new = some a

-- `bytes.Compare(b, a) < 0`, for `b` and `a` of one length.
unfoldable pub bytes_less : Bytes → Bytes → Bool
bytes_less [] b = not (length b == 0)
bytes_less (x ∷ a) [] = false
bytes_less (x ∷ a) (y ∷ b) = if ltb x y then true else if x == y then bytes_less a b else false

abbrev pub is_high_of : Key → Option Key → Bool
is_high_of k none = false
is_high_of k (some r) = bytes_less (public r) (public k)

unfoldable pub is_high : State → Bool
unfolding bytes_less
is_high s = is_high_of s.local_key s.remote_key

abbrev pub token_or_zero : Option Bytes → Bytes
token_or_zero none = zero_token
token_or_zero (some t) = t

-- `LocalToken` and `RemoteToken`
abbrev pub local_token_of : State → Bytes
local_token_of s = token_or_zero s.local_token

abbrev pub remote_token_of : State → Bytes
remote_token_of s = token_or_zero s.remote_token

abbrev pub differs : Option Key → Key → Bool
differs none k = false
differs (some r) k = not (bytes_eq (public r) (public k))

abbrev pub forget_line : State → State
forget_line s = record s {
  remote_line_key = none;
  remote_token = none;
  line_decryption_key = none;
  line_encryption_key = none;
}

module _ (N : Nacl) where
  open N use {precompute, sha256}

  abbrev pub with_random : Random → State → State
  with_random r s = record s {
    nonce = or_new s.nonce (some r.nonce);
    pkt_nonce_prefix = or_new s.pkt_nonce_prefix (some r.prefix);
    local_line_key = or_new s.local_line_key r.line;
  }

  -- `macKeyBase`, of the local private and the remote public key.
  abbrev pub mac_base : Key → Option Key → Option Bytes
  mac_base k none = none
  mac_base k (some r) =
      if is_some k.prv_key && is_some r.pub_key
      then some (precompute (public r) (private k))
      else none

  abbrev pub with_mac_base : State → State
  with_mac_base s = record s {
    mac_key_base = or_new s.mac_key_base (mac_base s.local_key s.remote_key);
  }

  abbrev pub line_token : Option Key → Option Bytes
  line_token none = none
  line_token (some k) = some (token_of sha256 (public k))

  abbrev pub with_tokens : State → State
  with_tokens s = record s {
    local_token = or_new s.local_token (line_token s.local_line_key);
    remote_token = or_new s.remote_token (line_token s.remote_line_key);
  }

  -- The two line keys of the line keys' pairs; the code reads no key here that is nil.
  abbrev pub key_between : Bytes → Bytes → Bytes → Bytes
  key_between shared from to = sha256 (shared ++ (from ++ to))

  abbrev pub shared_line : Key → Key → Bytes
  shared_line mine theirs = precompute (public theirs) (private mine)

  abbrev pub derive : Option Key → Option Key → State → State
  derive none theirs s = s
  derive (some mine) none s = s
  derive (some mine) (some theirs) s =
      let shared = shared_line mine theirs in
      record s {
        line_encryption_key = some (key_between shared (public mine) (public theirs));
        line_decryption_key = some (key_between shared (public theirs) (public mine));
      }

  abbrev pub with_line_keys : State → State
  with_line_keys s =
      if is_some s.local_token
        && (is_some s.remote_token
            && (not (is_some s.line_encryption_key) || not (is_some s.line_decryption_key)))
      then derive s.local_line_key s.remote_line_key s
      else s

  unfoldable pub update : Random → State → State
  update r s = with_line_keys (with_tokens (with_mac_base (with_random r s)))

  abbrev pub blank : Key → State
  blank k = record {
    local_key = k;
    remote_key = none;
    local_line_key = none;
    remote_line_key = none;
    local_token = none;
    remote_token = none;
    mac_key_base = none;
    line_encryption_key = none;
    line_decryption_key = none;
    nonce = none;
    pkt_nonce_prefix = none;
    pkt_nonce_suffix = 0;
  }

  -- `NewState` of a key of this cipher set; `none` is ErrInvalidKey.
  unfoldable pub new_state : Random → Key → Option State
  unfolding update
  new_state r k = if is_some k.pub_key && is_some k.prv_key then some (update r (blank k)) else none

  -- `SetRemoteKey` of such a key; the flag is whether it was set.
  unfoldable pub set_remote_key : Random → Key → State → State × Bool
  unfolding update
  set_remote_key r k s =
      if is_some k.pub_key then (update r (record s { remote_key = some k }), true) else (s, false)

  unfoldable pub set_remote_line_key : Random → Key → State → State
  unfolding update
  set_remote_line_key r k s = update r (record s { remote_line_key = some k })

  abbrev pub remember : Option Key → Random → Key → State → State
  remember none r k s = (set_remote_key r k s).0
  remember (some old) r k s = s

  -- `ApplyHandshake`, with what two calls of `update` draw.
  unfoldable pub apply_handshake : Random → Random → Key → Key → State → State × Bool
  unfolding set_remote_line_key set_remote_key
  apply_handshake r r' key line_key s =
      if differs s.remote_key key
      then (s, false)
      else let s1 = if differs s.remote_line_key line_key then forget_line s else s in
        let s2 = set_remote_line_key r line_key s1 in (remember s2.remote_key r' key s2, true)
