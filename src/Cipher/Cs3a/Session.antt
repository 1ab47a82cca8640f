-- ===== src/Cipher/Cs3a/Session.antt =====
-- e3x/cipherset/cs3a/cs3a_cipher.go: the states that the operations make, as few choices determine them.
use gogotelehash.Cipher.Cs3a.{
  Nacl, Key, Random, State, or_new, public, mac_base, key_between, shared_line, line_token, differs,
  forget_line, update, new_state, set_remote_key, set_remote_line_key, apply_handshake, remember,
  token_of, bytes_eq,
}
use gogotelehash.Cipher.Answer.{is_some}
use gogotelehash.Lob.Packet.{Bytes}
use gogotelehash.Lob.Extra.{bytes_eq_sound}
use gogotelehash.Prelude.{
  ℕ, ◌≡◌, refl, ap, true, false, Option, none, some, if◌then◌else◌, ◌∙◌, inl, inr, Bool-cases, ◌&&◌,
}

-- The keys of both sides, the private line key, the peer's line key once a handshake gave it, the key
-- base of messages, and the nonces.
pub record Session : Type 0 where
  pub local : Key
  pub remote : Option Key
  pub line : Bytes
  pub peer : Option Key
  pub mac : Option Bytes
  pub nonce : Bytes
  pub prefix : Bytes
  pub suffix : ℕ

module _ (N : Nacl) where
  open N use {public_of, sha256, precompute}

  abbrev pub pair : Bytes → Key
  pair p = record { pub_key = some (public_of p); prv_key = some p }

  -- The public half, as a handshake carries it.
  abbrev pub half : Bytes → Key
  half p = record { pub_key = some (public_of p); prv_key = none }

  abbrev pub encrypts_with : Bytes → Option Key → Option Bytes
  encrypts_with line none = none
  encrypts_with line (some k) =
      some (key_between N (shared_line N (pair line) k) (public_of line) (public k))

  abbrev pub decrypts_with : Bytes → Option Key → Option Bytes
  decrypts_with line none = none
  decrypts_with line (some k) =
      some (key_between N (shared_line N (pair line) k) (public k) (public_of line))

  -- Tokens and line keys are those of the two line keys.
  abbrev pub state_of : Session → State
  state_of x = record {
    local_key = x.local;
    remote_key = x.remote;
    local_line_key = some (pair x.line);
    remote_line_key = x.peer;
    local_token = line_token N (some (pair x.line));
    remote_token = line_token N x.peer;
    mac_key_base = x.mac;
    line_encryption_key = encrypts_with x.line x.peer;
    line_decryption_key = decrypts_with x.line x.peer;
    nonce = some x.nonce;
    pkt_nonce_prefix = some x.prefix;
    pkt_nonce_suffix = x.suffix;
  }

  abbrev pub with_remote : Option Key → Session → Session
  with_remote k x = record x { remote = k; mac = or_new x.mac (mac_base N x.local k) }

  abbrev pub with_peer : Key → Session → Session
  with_peer k x = record x { peer = some k; mac = or_new x.mac (mac_base N x.local x.remote) }

  update-remote :
      (r : Random) (k : Option Key) (x : Session) (peer : Option Key)
      → let y = record x { peer = peer } in
        update N r (record (state_of y) { remote_key = k }) ≡ state_of (with_remote k y)
  unfolding update
  update-remote r k x none = refl
  update-remote r k x (some p) = refl

  update-new_peer :
      (r : Random) (k : Key) (x : Session)
      → update N r (record (forget_line (state_of x)) { remote_line_key = some k })
        ≡ state_of (with_peer k x)
  unfolding update
  update-new_peer r k x = refl

  update-first_peer :
      (r : Random) (k : Key) (x : Session)
      → update N r (record (state_of (record x { peer = none })) { remote_line_key = some k })
        ≡ state_of (with_peer k x)
  unfolding update
  update-first_peer r k x = refl

  -- The tokens and line keys depend on the public half alone.
  abbrev state_at : Bytes → Key → Session → State
  state_at q k x = record (state_of (with_peer k x)) {
    remote_token = some (token_of sha256 q);
    line_encryption_key = some (key_between N (precompute q x.line) (public_of x.line) q);
    line_decryption_key = some (key_between N (precompute q x.line) q (public_of x.line));
  }

  update-same_peer :
      (r : Random) (old k : Key) (x : Session)
      → bytes_eq (public old) (public k) ≡ true
      → update N r (record (state_of (record x { peer = some old })) { remote_line_key = some k })
        ≡ state_of (with_peer k x)
  unfolding update
  update-same_peer r old k x e = ap (λ q. state_at q k x) (bytes_eq_sound (public old) (public k) e)

  -- Only the forgotten line keys and those of the same line key are built again.
  abbrev ready_for : Key → Session → State
  ready_for k x = if differs x.peer k then forget_line (state_of x) else state_of x

  set_remote_line_key-ready_for :
      (r : Random) (k : Key) (x : Session) (peer : Option Key)
      → let y = record x { peer = peer } in
        set_remote_line_key N r k (ready_for k y) ≡ state_of (with_peer k y)
  unfolding set_remote_line_key
  set_remote_line_key-ready_for r k x none = update-first_peer r k x
  set_remote_line_key-ready_for r k x (some old) =
      elim (Bool-cases (bytes_eq (public old) (public k))) [
        | inl e ↦ rw (e) (update-same_peer r old k x e)
        | inr e ↦ rw (e) (update-new_peer r k (record x { peer = some old }))
      ]

  -- `SetRemoteKey` and what `ApplyHandshake` leaves of the peer's key.
  abbrev pub set_key : Key → Session → Session
  set_key k x = if is_some k.pub_key then with_remote (some k) x else x

  abbrev pub remembered : Option Key → Key → Session → Session
  remembered none k x = set_key k x
  remembered (some old) k x = x

  set_remote_key-halves :
      (r : Random) (half prv : Option Bytes) (x : Session)
      → let k : Key = record { pub_key = half; prv_key = prv } in
        set_remote_key N r k (state_of x) ≡ (state_of (set_key k x), is_some half)
  unfolding set_remote_key
  set_remote_key-halves r none prv x = refl
  set_remote_key-halves r (some h) prv x =
      ap (λ s. (s, true))
        (update-remote r (some (record { pub_key = some h; prv_key = prv })) x x.peer)

  pub set_remote_key-state_of :
      (r : Random) (k : Key) (x : Session)
      → set_remote_key N r k (state_of x) ≡ (state_of (set_key k x), is_some k.pub_key)
  set_remote_key-state_of r k x = set_remote_key-halves r k.pub_key k.prv_key x

  remember-state_of :
      (r : Random) (k : Key) (x : Session) (old : Option Key)
      → remember N old r k (state_of x) ≡ state_of (remembered old k x)
  remember-state_of r k x none = ap (λ q. q.0) (set_remote_key-state_of r k x)
  remember-state_of r k x (some old) = refl

  abbrev pub after_handshake : Key → Key → Session → Session
  after_handshake key line_key x = remembered x.remote key (with_peer line_key x)

  pub apply_handshake-state_of :
      (r r' : Random) (key line_key : Key) (x : Session)
      → apply_handshake N r r' key line_key (state_of x) ≡ (
          if differs x.remote key
          then (state_of x, false)
          else (state_of (after_handshake key line_key x), true))
  unfolding apply_handshake
  apply_handshake-state_of r r' key line_key x = elim (Bool-cases (differs x.remote key)) [
    | inl e ↦ rw (e) refl
    | inr e ↦ rw (e) (
        ap (λ s. (remember N s.remote_key r' key s, true))
          (set_remote_line_key-ready_for r line_key x x.peer)
        ∙ ap (λ s. (s, true)) (remember-state_of r' key (with_peer line_key x) x.remote))
  ]

  abbrev pub new_session : Key → Bytes → Random → Session
  new_session k line r = record {
    local = k;
    remote = none;
    line = line;
    peer = none;
    mac = none;
    nonce = r.nonce;
    prefix = r.prefix;
    suffix = 0;
  }

  new_state-halves :
      (r : Random) (half prv : Option Bytes) (line : Bytes)
      → let k : Key = record { pub_key = half; prv_key = prv } in
        new_state N (record r { line = some (pair line) }) k
        ≡ (if is_some half && is_some prv then some (state_of (new_session k line r)) else none)
  unfolding new_state
  new_state-halves r none prv line = refl
  new_state-halves r (some h) none line = refl
  new_state-halves r (some h) (some p) line = refl

  pub new_state-state_of :
      (r : Random) (k : Key) (line : Bytes)
      → r.line ≡ some (pair line)
      → new_state N r k ≡ (
          if is_some k.pub_key && is_some k.prv_key
          then some (state_of (new_session k line r))
          else none)
  new_state-state_of r k line e =
      ap (λ l. new_state N (record r { line = l }) k) e
      ∙ new_state-halves r k.pub_key k.prv_key line
