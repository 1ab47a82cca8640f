-- ===== src/Cipher/Parts.antt =====
-- e3x/cipherset/map.go and registry.go: the keys and the intermediate parts of an identity, by the id of
-- their cipher set. A map is the list of its entries in the order of one iteration.
pub mod Laws
use gogotelehash.Hashname.Base32.{encode_to_string, decode_string}
use gogotelehash.Lob.Extra.{set_string}
use gogotelehash.Lob.Packet.{Bytes, Header, Value, Fields, is_zero}
use gogotelehash.Prelude.Map.{lookup, insert}
use gogotelehash.Prelude.{
  ℕ, zero, ◌+◌, ◌-◌, ◌*◌, ◌/◌, ◌%◌, ap, ◌&&◌, ◌||◌, Option, none, some, List, [], ◌∷◌, map, ltb,
  leb, ◌==◌, if◌then◌else◌, length, take,
}

-- `SelectCSID`: the body of the loop, and the loop.
abbrev pub better {ℓ} : {V : Type ℓ} → ℕ → Option V → ℕ → ℕ
better id none max = max
better id (some v) max = if ltb max id then id else max

unfoldable pub select_from {ℓ} : {V : Type ℓ} → List (ℕ × V) → List (ℕ × V) → ℕ → ℕ
select_from [] b max = max
select_from ((id, v) ∷ rest) b max = select_from rest b (better id (lookup id b) max)

unfoldable pub select_csid {ℓ} : {V : Type ℓ} → List (ℕ × V) → List (ℕ × V) → ℕ
unfolding select_from
select_csid a b = select_from a b 0

-- `hex.EncodeToString([]byte{k})`, and `hex.DecodeString` of a text, which takes both cases.
abbrev pub hex_digit : ℕ → ℕ
hex_digit n = if ltb n 10 then n + 48 else n + 87

abbrev pub hex_id : ℕ → Bytes
hex_id k = hex_digit (k / 16) ∷ hex_digit (k % 16) ∷ []

abbrev pub hex_value : ℕ → Option ℕ
hex_value c =
    if leb b'0' c && leb c b'9'
    then some (c - 48)
    else if leb b'a' c && leb c b'f'
    then some (c - 87)
    else if leb b'A' c && leb c b'F'
    then some (c - 55)
    else none

abbrev pub hex_pair : Option ℕ → Option ℕ → Option ℕ
hex_pair none lo = none
hex_pair (some h) none = none
hex_pair (some h) (some l) = some (h * 16 + l)

-- `len(k) != 2` and `hex.DecodeString(k)`, of which the one byte is taken.
abbrev pub id_of_key : Bytes → Option ℕ
id_of_key [] = none
id_of_key (hi ∷ []) = none
id_of_key (hi ∷ lo ∷ []) = hex_pair (hex_value hi) (hex_value lo)
id_of_key (hi ∷ lo ∷ c ∷ rest) = none

-- `s, ok := v.(string); !ok || s == ""`
abbrev pub text_of : Value → Option Bytes
text_of (Value.string []) = none
text_of (Value.string (c ∷ rest)) = some (c ∷ rest)
text_of _ = none

-- One entry of `PartsFromHeader` and of `Parts.UnmarshalJSON`.
abbrev pub then_part :
    Option ℕ → Option Bytes → Option (List (ℕ × Bytes)) → Option (List (ℕ × Bytes))
then_part none s y = none
then_part (some id) none y = none
then_part (some id) (some s) none = none
then_part (some id) (some s) (some y) = if length s == 52 then some (insert id s y) else none

unfoldable pub parts_of : List (Bytes × Value) → Option (List (ℕ × Bytes))
parts_of [] = some []
parts_of ((k, v) ∷ rest) = then_part (id_of_key k) (text_of v) (parts_of rest)

-- `PartsFromHeader`; `none` is ErrInvalidParts.
unfoldable pub parts_from_header : Header → Option (List (ℕ × Bytes))
unfolding parts_of
parts_from_header h = if is_zero h then some [] else parts_of h.extra

-- `Parts.ApplyToHeader`
unfoldable pub apply_to_header : List (ℕ × Bytes) → Header → Header
apply_to_header [] h = h
apply_to_header ((k, v) ∷ rest) h = apply_to_header rest (set_string (hex_id k) v h)

-- A Go interface of keys: `public` and `private` are the methods, `opaque` makes the `opaqueKey` of an
-- unknown cipher set, `decoders` holds `DecodeKeyBytes` of each that is registered.
pub record KeyI : Type 1 where
  pub Key : Type 0
  pub public : Key → Bytes
  pub private : Key → Bytes
  pub opaque : ℕ → Bytes → Bytes → Key
  pub decoders : List (ℕ × (Bytes → Bytes → Option Key))

module _ (I : KeyI) where
  open I use {Key, public, private, opaque, decoders}

  abbrev pub decode_with : Option (Bytes → Bytes → Option Key) → ℕ → Bytes → Bytes → Option Key
  decode_with none csid pub_key prv = some (opaque csid pub_key prv)
  decode_with (some decoder) csid pub_key prv = decoder pub_key prv

  -- `DecodeKeyBytes`
  unfoldable pub decode_key_bytes : ℕ → Bytes → Bytes → Option Key
  decode_key_bytes csid pub_key prv = decode_with (lookup csid decoders) csid pub_key prv

  abbrev pub decode_texts : ℕ → Option Bytes → Option Bytes → Option Key
  decode_texts csid none prv = none
  decode_texts csid (some pub_key) none = none
  decode_texts csid (some pub_key) (some prv) = decode_with (lookup csid decoders) csid pub_key prv

  -- `DecodeKey`
  unfoldable pub decode_key : ℕ → Bytes → Bytes → Option Key
  decode_key csid pub_key prv = decode_texts csid (decode_string pub_key) (decode_string prv)

  abbrev pub with_key : ℕ → Option Key → Option (List (ℕ × Key)) → Option (List (ℕ × Key))
  with_key id none y = none
  with_key id (some key) none = none
  with_key id (some key) (some y) = some (insert id key y)

  abbrev pub then_key : Option ℕ → Option Bytes → Option (List (ℕ × Key)) → Option (List (ℕ × Key))
  then_key none s y = none
  then_key (some id) none y = none
  then_key (some id) (some s) y = with_key id (decode_key id s []) y

  -- `KeysFromJSON` of an object, and `Keys.UnmarshalJSON`: `none` is an error.
  unfoldable pub keys_of : List (Bytes × Value) → Option (List (ℕ × Key))
  unfolding decode_key
  keys_of [] = some []
  keys_of ((k, v) ∷ rest) = then_key (id_of_key k) (text_of v) (keys_of rest)

  abbrev pub entries_of : Fields → List (Bytes × Value)
  entries_of Fields.stop = []
  entries_of (Fields.field k v rest) = (k, v) ∷ entries_of rest

  unfoldable pub keys_from_json : Value → Option (List (ℕ × Key))
  unfolding keys_of
  keys_from_json Value.null = some []
  keys_from_json (Value.object fields) = keys_of (entries_of fields)
  keys_from_json _ = none

  -- `Keys.ApplyToHeader`; `String` is the public key in base 32.
  unfoldable pub keys_apply_to_header : List (ℕ × Key) → Header → Header
  keys_apply_to_header [] h = h
  keys_apply_to_header ((k, key) ∷ rest) h =
      keys_apply_to_header rest (set_string (hex_id k) (encode_to_string (public key)) h)
