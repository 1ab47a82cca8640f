-- ===== src/Endpoint/Identity.antt =====
-- e3x/identity.go: an identity is the hashname of its keys and parts.
use gogotelehash.Hashname.Derive
use gogotelehash.Hashname.Derive.{Derived, from_intermediates, parts_from_keys}
use gogotelehash.Lob.Packet.{Bytes}
use gogotelehash.Prelude.Map.{insert}
use gogotelehash.Prelude.{ℕ, List, [], ◌∷◌, Option, none, some, length, ◌==◌, if◌then◌else◌, ◌++◌}

-- A key stands for its public bytes; the addresses are those of the transport.
pub record Identity (Addr : Type 0) : Type 0 where
  pub hashname : Bytes
  pub keys : List (ℕ × Bytes)
  pub parts : List (ℕ × Bytes)
  pub addrs : List Addr

-- `for csid, part := range … { ident.parts[csid] = part }`
abbrev pub put_all : List (ℕ × Bytes) → List (ℕ × Bytes) → List (ℕ × Bytes)
put_all [] parts = parts
put_all ((id, part) ∷ rest) parts = put_all rest (insert id part parts)

module _ (sha : Bytes → Bytes) {Addr : Type 0} where
  abbrev pub identified :
      Derived → List (ℕ × Bytes) → List (ℕ × Bytes) → List Addr → Option (Identity Addr)
  identified (Derive.ok hn) keys parts addrs =
      some (record { hashname = hn; keys = keys; parts = parts; addrs = addrs })
  identified Derive.no_intermediate_parts keys parts addrs = none
  identified Derive.invalid_intermediate_part keys parts addrs = none

  -- `NewIdentity`; nil parts are empty.
  unfoldable pub new_identity :
      List (ℕ × Bytes) → List (ℕ × Bytes) → List Addr → Option (Identity Addr)
  new_identity keys parts addrs =
      let all = put_all (parts_from_keys sha keys) parts in
      if length keys == 0 then none else identified (from_intermediates sha all) keys all addrs

module _ {Addr : Type 0} where
  -- `withPaths`
  unfoldable pub with_paths : List Addr → Identity Addr → Identity Addr
  with_paths paths i = record i { addrs = paths }

  -- `AddPathCandiate`
  unfoldable pub add_path_candidate : Addr → Identity Addr → Identity Addr
  add_path_candidate addr i = record i { addrs = i.addrs ++ addr ∷ [] }
