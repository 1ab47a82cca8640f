-- ===== src/Lob/Packet.antt =====
-- internal/lob/coder.go: packets, headers, and the accessors of the extra header fields.
use gogotelehash.Prelude.{ℕ, Bool, true, false, not, ◌&&◌, ◌||◌, List, [], ◌∷◌}

abbrev pub Bytes : Type 0
Bytes = List ℕ

-- A Go int.
pub data ℤ : Type 0 where
  pos negsuc : ℕ → ℤ

-- What an `interface{}` of the extra headers holds: the results of `json.Unmarshal` (a number is
-- its IEEE pattern), and what the setters of `Header` store.
mutual
  pub data Value : Type 0 where
    null : Value
    bool : Bool → Value
    string : Bytes → Value
    float64 : ℕ → Value
    int : ℤ → Value
    uint32s : List ℕ → Value
    array : Values → Value
    object : Fields → Value

  pub data Values : Type 0 where
    nil : Values
    cons : Value → Values → Values

  pub data Fields : Type 0 where
    stop : Fields
    field : Bytes → Value → Fields → Fields

-- `Extra` lists the entries of the map, in the order in which Go ranges over them.
pub record Header : Type 0 where
  pub bytes : Bytes
  pub c : ℕ
  pub type : Bytes
  pub end : Bool
  pub seq : ℕ
  pub ack : ℕ
  pub miss : List ℕ
  pub has_c : Bool
  pub has_type : Bool
  pub has_end : Bool
  pub has_seq : Bool
  pub has_ack : Bool
  pub has_miss : Bool
  pub extra : List (Bytes × Value)

-- `Header{}`.
abbrev pub empty_header : Header
empty_header = record {
  bytes = [];
  c = 0;
  type = [];
  end = false;
  seq = 0;
  ack = 0;
  miss = [];
  has_c = false;
  has_type = false;
  has_end = false;
  has_seq = false;
  has_ack = false;
  has_miss = false;
  extra = [];
}

-- A nil body is the empty one: both have length 0.
pub record Packet : Type 0 where
  pub header : Header
  pub body : Bytes

abbrev pub empty_packet : Packet
empty_packet = record { header = empty_header; body = [] }

abbrev pub is_empty {ℓ} : {A : Type ℓ} → List A → Bool
is_empty [] = true
is_empty (x ∷ xs) = false

unfoldable pub is_zero : Header → Bool
is_zero h =
    not h.has_c
    && (not h.has_end
        && (not h.has_type
            && (not h.has_seq
                && (not h.has_ack
                    && ((not h.has_miss || is_empty h.miss)
                        && (is_empty h.extra && is_empty h.bytes))))))

unfoldable pub is_binary : Header → Bool
is_binary h = not (is_empty h.bytes)
