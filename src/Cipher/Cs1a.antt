-- ===== src/Cipher/Cs1a.antt =====
-- e3x/cipherset/cs1a/cs1a_cipher.go and key.go: cipher set 1a. The curve, AES in counter mode, HMAC and
-- SHA-256 are parameters, and so is what the source of random numbers gives.
pub mod Fold
pub mod Contract
pub mod Message
pub mod Line
use gogotelehash.Cipher.Answer.{is_some}
use gogotelehash.Cipher.Cs1a.Fold.{fold}
use gogotelehash.Cipher.Token.{token_of, zero_token}
use gogotelehash.Lob.Packet.{Bytes}
use gogotelehash.Lob.Parse.Fields.{bytes_eq}
use gogotelehash.Prelude.{
  ℕ, Bool, Option, none, some, List, [], ◌∷◌, length, if◌then◌else◌, zero, ◌+◌, ◌-◌, ◌/◌, ap, true,
  false, not, ◌&&◌, ◌||◌, ◌++◌, take,
}

-- The curve: `greater p q` is `p.x.Cmp(q.x) > 0`, `shared point prv` is `ecdh.ComputeShared`. The ciphers:
-- `ctr key iv data` is `XORKeyStream`, `hmac key data` is the sum.
pub record Suite : Type 1 where
  pub Point : Type 0
  pub unmarshal : Bytes → Option Point
  pub marshal : Point → Bytes
  pub greater : Point → Point → Bool
  pub shared : Point → Bytes → Option Bytes
  pub sha256 : Bytes → Bytes
  pub hmac : Bytes → Bytes → Bytes
  pub ctr : Bytes → Bytes → Bytes → Bytes

-- `key`; a nil pointer is `none`, here and below.
pub record Key (S : Suite) : Type 0 where
  pub point : Option (S.Point)
  pub prv : Option Bytes

pub record State (S : Suite) : Type 0 where
  pub local_key : Key S
  pub remote_key : Option (Key S)
  pub local_line_key : Option (Key S)
  pub remote_line_key : Option (Key S)
  pub local_token : Option Bytes
  pub remote_token : Option Bytes
  pub line_encryption_key : Option Bytes
  pub line_decryption_key : Option Bytes

-- `handshake`
pub record Handshake (S : Suite) : Type 0 where
  pub key : Key S
  pub line_key : Key S
  pub parts : List (ℕ × Bytes)
  pub at : ℕ

abbrev pub nil_or : Option Bytes → Bytes
nil_or none = []
nil_or (some b) = b

abbrev pub or_new {ℓ} : {A : Type ℓ} → Option A → Option A → Option A
or_new none new = new
or_new (some a) new = some a

module _ (S : Suite) where
  open S use {Point, unmarshal, marshal, greater, shared, sha256}

  abbrev pub marshalled : Option Point → Bytes
  marshalled none = []
  marshalled (some p) = marshal p

  -- `Public()`
  abbrev pub public : Key S → Bytes
  public k = marshalled k.point

  abbrev pub can_encrypt : Option (Key S) → Bool
  can_encrypt none = false
  can_encrypt (some k) = is_some k.point

  abbrev pub can_sign : Option (Key S) → Bool
  can_sign none = false
  can_sign (some k) = is_some k.prv

  abbrev pub not_empty : Bytes → Option Bytes
  not_empty [] = none
  not_empty (b ∷ rest) = some (b ∷ rest)

  abbrev pub with_point : Option Point → Bytes → Option (Key S)
  with_point none prv = none
  with_point (some p) prv = some (record { point = some p; prv = not_empty prv })

  -- `decodeKeyBytes`; `none` is ErrInvalidKey.
  unfoldable pub decode_key_bytes : Bytes → Bytes → Option (Key S)
  decode_key_bytes [] prv = some (record { point = none; prv = not_empty prv })
  decode_key_bytes (b ∷ rest) prv = with_point (unmarshal (b ∷ rest)) prv

  abbrev pub higher : Option Point → Option Point → Bool
  higher none q = false
  higher (some p) none = false
  higher (some p) (some q) = greater p q

  abbrev pub is_high_of : Key S → Option (Key S) → Bool
  is_high_of k none = false
  is_high_of k (some r) = higher k.point r.point

  -- `IsHigh`
  unfoldable pub is_high : State S → Bool
  is_high s = is_high_of s.local_key s.remote_key

  abbrev pub token_or_zero : Option Bytes → Bytes
  token_or_zero none = zero_token
  token_or_zero (some t) = t

  -- `LocalToken` and `RemoteToken`
  abbrev pub local_token_of : State S → Bytes
  local_token_of s = token_or_zero s.local_token

  abbrev pub remote_token_of : State S → Bytes
  remote_token_of s = token_or_zero s.remote_token

  abbrev pub line_token : Option (Key S) → Option Bytes
  line_token none = none
  line_token (some k) = some (token_of sha256 (public k))

  abbrev pub with_tokens : Option (Key S) → State S → State S
  with_tokens line s =
      let key = or_new s.local_line_key line in
      record s {
        local_line_key = key;
        local_token = or_new s.local_token (line_token key);
        remote_token = or_new s.remote_token (line_token s.remote_line_key);
      }

  -- The code calls it with no key that has no point.
  abbrev pub shared_by : Option Point → Option Bytes → Bytes
  shared_by none prv = []
  shared_by (some p) prv = nil_or (shared p (nil_or prv))

  -- The hash has 32 bytes, which `fold` takes to 16.
  abbrev pub key_between : Bytes → Bytes → Bytes → Bytes
  key_between secret from to = nil_or (fold (sha256 (secret ++ (from ++ to))) 16)

  abbrev pub derive : Option (Key S) → Option (Key S) → State S → State S
  derive none theirs s = s
  derive (some mine) none s = s
  derive (some mine) (some theirs) s =
      let secret = shared_by theirs.point mine.prv in
      record s {
        line_encryption_key = some (key_between secret (public mine) (public theirs));
        line_decryption_key = some (key_between secret (public theirs) (public mine));
      }

  abbrev pub with_line_keys : State S → State S
  with_line_keys s =
      if is_some s.local_token
        && (is_some s.remote_token
            && (not (is_some s.line_encryption_key) || not (is_some s.line_decryption_key)))
      then derive s.local_line_key s.remote_line_key s
      else s

  -- `update`, with the line key that `generateKey` makes, or fails to.
  unfoldable pub update : Option (Key S) → State S → State S
  update line s = with_line_keys (with_tokens line s)

  abbrev pub blank : Key S → State S
  blank k = record {
    local_key = k;
    remote_key = none;
    local_line_key = none;
    remote_line_key = none;
    local_token = none;
    remote_token = none;
    line_encryption_key = none;
    line_decryption_key = none;
  }

  -- `NewState`; `none` is ErrInvalidKey.
  unfoldable pub new_state : Option (Key S) → Key S → Option (State S)
  unfolding update
  new_state line k = if is_some k.point && is_some k.prv then some (update line (blank k)) else none

  -- `SetRemoteKey`; the flag is whether it was set.
  unfoldable pub set_remote_key : Option (Key S) → Key S → State S → State S × Bool
  unfolding update
  set_remote_key line k s =
      if is_some k.point then (update line (record s { remote_key = some k }), true) else (s, false)

  unfoldable pub set_remote_line_key : Option (Key S) → Key S → State S → State S
  unfolding update
  set_remote_line_key line k s = update line (record s { remote_line_key = some k })

  abbrev pub differs : Option (Key S) → Key S → Bool
  differs none k = false
  differs (some r) k = not (bytes_eq (public r) (public k))

  abbrev pub forget_line : State S → State S
  forget_line s = record s {
    remote_line_key = none;
    remote_token = none;
    line_decryption_key = none;
    line_encryption_key = none;
  }

  abbrev pub remember : Option (Key S) → Option (Key S) → Key S → State S → State S
  remember none line k s = (set_remote_key line k s).0
  remember (some old) line k s = s

  -- `ApplyHandshake`, with the line keys that two calls of `update` would make.
  unfoldable pub apply_handshake :
      Option (Key S) → Option (Key S) → Key S → Key S → State S → State S × Bool
  unfolding set_remote_line_key set_remote_key
  apply_handshake line line' key line_key s =
      if differs s.remote_key key
      then (s, false)
      else let s1 = if differs s.remote_line_key line_key then forget_line s else s in
        let s2 = set_remote_line_key line line_key s1 in (remember s2.remote_key line' key s2, true)
