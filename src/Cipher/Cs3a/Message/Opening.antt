-- ===== src/Cipher/Cs3a/Message/Opening.antt =====
-- e3x/cipherset/cs3a/cs3a_cipher.go: a new state that is given the peer's key.
use gogotelehash.Cipher.Cs3a.{Nacl, Random, State, new_state, set_remote_key}
use gogotelehash.Cipher.Cs3a.Reach.{Gives}
use gogotelehash.Cipher.Cs3a.Message.RoundTrip.{Speaks}
use gogotelehash.Cipher.Cs3a.Session.{
  pair, half, state_of, set_key, new_session, new_state-state_of, set_remote_key-state_of,
}
use gogotelehash.Lob.Packet.{Bytes}
use gogotelehash.Prelude.{◌≡◌, refl, ap, some, sym, ◌∙◌}

-- A state that was made of a key pair, with random numbers as asked for, can send messages once it is
-- given the peer's public key.
pub set_remote_key-Speaks :
    (N : Nacl) (r r' : Random) (mine theirs : Bytes) (s : State)
    → Gives N r
    → new_state N r (pair N mine) ≡ some s
    → Speaks N (set_remote_key N r' (half N theirs) s).0 mine theirs
set_remote_key-Speaks N r r' mine theirs s g made =
    let x = new_session N (pair N mine) g.line r in
    let both : some s ≡ some (state_of N x) =
      sym made ∙ new_state-state_of N r (pair N mine) g.line g.made in
    let made_of : s ≡ state_of N x = cc in
    let keyed : (set_remote_key N r' (half N theirs) s).0
        ≡ state_of N (set_key N (half N theirs) x) =
      ap (λ s. (set_remote_key N r' (half N theirs) s).0) made_of
      ∙ ap (λ q. q.0) (set_remote_key-state_of N r' (half N theirs) x) in
    rw (keyed) (record {
      line = g.line;
      local_line = refl;
      remote = half N theirs;
      remote_key = refl;
      public_remote = refl;
      base = refl;
      nonce = r.nonce;
      has_nonce = refl;
      nonce_length = g.nonce_length;
    })
