-- ===== src/Endpoint/Tests.antt =====
-- e3x/endpoint.go, hooks.go and exchange_pipe.go: the theorems at concrete inputs.
use gogotelehash.Cipher.Token.{extract_token}
use gogotelehash.Endpoint.Exchanges.{
  ExchangeI, Endpoint, delivered, accept, get_exchange, create_exchange, read_handshake,
}
use gogotelehash.Endpoint.Hooks.{Returned, nothing, stop_propagation, trigger}
use gogotelehash.Endpoint.Identity.{Identity, new_identity}
use gogotelehash.Endpoint.Laws.{Spares, accept-Spares, accept-routes}
use gogotelehash.Endpoint.Table.{find}
use gogotelehash.Lob.Packet.{Bytes}
use gogotelehash.Prelude.{
  ℕ, ◌≡◌, refl, [], ◌∷◌, Option, none, some, length, zero, suc, ◌+◌, ◌≤◌, ◌⊎◌, false, arith,
}
use gogotelehash.Hashname.Derive.{
  from_intermediates, parts_from_keys, from_key_and_intermediates, absorb_all,
}
use gogotelehash.Hashname.Base32.{encode_to_string, decode_string}
use gogotelehash.Exchange.Pipe.{
  Pipe, peek, eof, dial_locked, close_locked, dials, no_step, then_step, close_locked-Steps,
}

abbrev zeros_of : ℕ → Bytes
zeros_of zero = []
zeros_of (suc n) = 0 ∷ zeros_of n

-- An exchange is its two tokens and the name of the peer; a handshake is a key.
abbrev local_of : ℕ → Bytes
local_of n = 7 ∷ 7 ∷ 7 ∷ 7 ∷ 7 ∷ 7 ∷ 7 ∷ 7 ∷ 7 ∷ 7 ∷ 7 ∷ 7 ∷ 7 ∷ 7 ∷ 7 ∷ n ∷ []

abbrev sum32 : Bytes → Bytes
sum32 b = length b ∷ zeros_of 31

abbrev stopping : ℕ → ℕ × Returned
stopping s = (s + 1, stop_propagation)

abbrev counting : ℕ → ℕ × Returned
counting s = (s + 1, nothing)

abbrev toy : ExchangeI
toy = record {
  Exchange = Bytes × Bytes × Option Bytes;
  Handshake = Bytes;
  Addr = ℕ;
  Outside = ℕ;
  sha = sum32;
  decrypt = λ csid key msg. some msg;
  public_key = λ h. h;
  parts = λ h. [];
  answering = λ ident h. some (local_of 1, local_of 2, none);
  towards = λ mine ident. some (local_of 1, zeros_of 16, some ident.hashname);
  start_dialing = λ x. x;
  received = λ msg x. x;
  local_token = λ x. x.0;
  remote_token = λ x. x.1;
  remote_ident = λ x. x.2;
}

abbrev fresh : Endpoint toy
fresh = record {
  keys = (58, 1 ∷ []) ∷ [];
  addrs = [];
  tokens = [];
  hashnames = [];
  exchanges = [];
  next = 1;
  drop_hooks = λ msg. some counting ∷ none ∷ some stopping ∷ some counting ∷ [];
  outside = 0;
}

-- The second hook stops the third, and the connection is closed all the same.
accept-Spares_example : Spares toy (5 ∷ []) fresh (accept toy (some (5 ∷ [])) fresh)
accept-Spares_example = accept-Spares toy (5 ∷ []) fresh

hooks_stop : (accept toy (some (5 ∷ [])) fresh).0.outside ≡ 2
unfolding accept trigger
hooks_stop = refl

abbrev greeting : Bytes
greeting = 0 ∷ 1 ∷ 58 ∷ 9 ∷ []

abbrev nobody : Identity ℕ
nobody = record { hashname = []; keys = []; parts = []; addrs = [] }

abbrev or_nobody : Option (Identity ℕ × Bytes × Bytes) → Identity ℕ × Bytes × Bytes
or_nobody none = (nobody, [], [])
or_nobody (some t) = t

abbrev met : Identity ℕ × Bytes × Bytes
met = or_nobody (read_handshake toy greeting fresh)

reads : read_handshake toy greeting fresh ≡ some met
unfolding read_handshake new_identity from_intermediates parts_from_keys from_key_and_intermediates
    absorb_all encode_to_string decode_string
reads = refl

no_token : find (extract_token sum32 greeting) fresh.tokens ≡ none
unfolding find
no_token = refl

no_name : find met.2 fresh.hashnames ≡ none
unfolding find
no_name = refl

accept-routes_example :
    (e : Endpoint toy) × (accept toy (some greeting) fresh ≡ (e, delivered 1))
    × (get_exchange toy met.2 e ≡ some 1)
    × ((later : Bytes)
        → 2 ≤ length later
        → (extract_token sum32 later ≡ local_of 1) ⊎ (extract_token sum32 later ≡ local_of 2)
        → (accept toy (some later) e).1 ≡ delivered 1)
accept-routes_example =
    accept-routes toy greeting met.2 met.0 met.1 (local_of 1, local_of 2, none) fresh (omega arith)
      no_token reads no_name refl

abbrev bob : Identity ℕ
bob = record { hashname = 98 ∷ []; keys = []; parts = []; addrs = [] }

abbrev with_bob : Endpoint toy
with_bob = (create_exchange toy bob fresh).0

created : create_exchange toy bob fresh ≡ (with_bob, some 1)
unfolding create_exchange new_identity from_intermediates parts_from_keys absorb_all
    encode_to_string decode_string find
created = refl

abbrev bob_exchange : Bytes × Bytes × Option Bytes
bob_exchange = (local_of 1, zeros_of 16, some (98 ∷ []))

-- A pipe that is closed, and then dialed.
abbrev lazy : Pipe
lazy = record { conn = none; closed = false; readers = []; pending = 0 }

close_locked-Steps_example :
    (peek (dial_locked (some 4) (close_locked lazy).0).0 ≡ eof)
    × (dial_locked (some 5) (dial_locked (some 4) (close_locked lazy).0).0
        ≡ ((dial_locked (some 4) (close_locked lazy).0).0, eof))
    × ((close_locked (dial_locked (some 4) (close_locked lazy).0).0).1 ≡ none)
close_locked-Steps_example =
    close_locked-Steps lazy (dial_locked (some 4) (close_locked lazy).0).0 (some 5) (
      then_step (close_locked lazy).0 (close_locked lazy).0 _ (no_step (close_locked lazy).0)
        (dials (some 4) (close_locked lazy).0))
