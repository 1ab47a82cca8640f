-- ===== src/Cipher/Cs3a/Reach.antt =====
-- e3x/cipherset/cs3a/cs3a_cipher.go: the states that the calls on a session lead to.
use gogotelehash.Cipher.Answer.{
  Answer, ok, invalid_key, invalid_state, invalid_message, invalid_packet, encoding_error, panics,
  then_lob, is_some,
}
use gogotelehash.Cipher.Cs3a.{
  Nacl, Key, Random, State, new_state, set_remote_key, apply_handshake, differs,
}
use gogotelehash.Cipher.Cs3a.Line.{encrypt_packet, outer_packet, next_suffix, can_encrypt_packet}
use gogotelehash.Cipher.Cs3a.Session.{
  Session, pair, state_of, set_key, remembered, with_peer, after_handshake, new_session,
  set_remote_key-state_of, apply_handshake-state_of, new_state-state_of, with_remote,
}
use gogotelehash.Lob.Coder
use gogotelehash.Lob.Coder.{encode}
use gogotelehash.Lob.Packet.{Bytes, Packet}
use gogotelehash.Lob.Parse.{Json}
use gogotelehash.Prelude.{
  ℕ, ◌≡◌, refl, ap, Bool, true, false, Option, none, some, length, if◌then◌else◌, not, sym, ◌∙◌,
  subst, inl, inr, ◌&&◌, if_intro, Bool-cases, ◌+◌, ltb,
}

-- The source of random numbers gave what it was asked for, and a line key was made.
pub record Gives (N : Nacl) (r : Random) : Type 0 where
  pub line : Bytes
  pub made : r.line ≡ some (pair N line)
  pub nonce_length : length r.nonce ≡ 24
  pub prefix_length : length r.prefix ≡ 16

-- What the operations lead to.
pub data Reach (N : Nacl) (j : Json) : State → Type 0 where
  started : (r : Random) (k : Key) (s : State) → Gives N r → new_state N r k ≡ some s → Reach N j s
  keyed : (r : Random) (k : Key) (s : State) → Reach N j s → Reach N j (set_remote_key N r k s).0
  shook :
      (r r' : Random) (key line_key : Key) (s : State)
      → Reach N j s
      → Reach N j (apply_handshake N r r' key line_key s).0
  sent :
      (pkt outer : Packet) (s s' : State)
      → Reach N j s
      → encrypt_packet N j pkt s ≡ ok (s', outer)
      → Reach N j s'

-- A state that a session determines, with nonces of the right length.
pub record IsSession (N : Nacl) (s : State) : Type 0 where
  pub session : Session
  pub same : s ≡ state_of N session
  pub nonce_length : length session.nonce ≡ 24
  pub prefix_length : length session.prefix ≡ 16

some_if : (b : Bool) (x y : State) → (if b then some x else none) ≡ some y → y ≡ x
some_if true x y e = cc
some_if false x y e = absurd cc

abbrev numbered : State → ℕ → State
numbered s n = record s { pkt_nonce_suffix = n }

-- A call of `encrypt_packet` counts one packet and changes nothing else.
abbrev pub counted : State → State
counted s = record s { pkt_nonce_suffix = next_suffix s }

abbrev pub Counts : State → Answer (State × Packet) → Type 0
Counts s (ok (s', p)) = s' ≡ counted s
Counts s invalid_key = Unit
Counts s invalid_state = Unit
Counts s invalid_message = Unit
Counts s invalid_packet = Unit
Counts s encoding_error = Unit
Counts s panics = Unit

module _ (N : Nacl) (j : Json) where
  then_lob-Counts :
      (s : State) (o : Coder.Outcome Bytes)
      → Counts s (then_lob o (λ inner. outer_packet N j inner s))
  then_lob-Counts s (Coder.ok inner) =
      if_intro (Counts s) (ltb 1500 (16 + 24 + length inner + 16)) (λ t. tt) (λ f. refl)
  then_lob-Counts s Coder.invalid_packet = tt
  then_lob-Counts s Coder.encoding_error = tt
  then_lob-Counts s Coder.panics = tt

  pub encrypt_packet-Counts : (pkt : Packet) (s : State) → Counts s (encrypt_packet N j pkt s)
  unfolding encrypt_packet
  encrypt_packet-Counts pkt s =
      if_intro (Counts s) (not (can_encrypt_packet s)) (λ t. tt)
        (λ f. then_lob-Counts s (encode j pkt))

module _ (N : Nacl) where
  -- What holds with and without the key of the peer holds after it may have been set.
  set_key-cases :
      (P : Session → Type 0) (k : Key) (x : Session)
      → P x
      → P (with_remote N (some k) x)
      → P (set_key N k x)
  set_key-cases P k x without with_it = if_intro P (is_some k.pub_key) (λ t. with_it) (λ f. without)

  pub remembered-cases :
      (P : Session → Type 0) (old : Option Key) (k : Key) (x : Session)
      → P x
      → P (with_remote N (some k) x)
      → P (remembered N old k x)
  remembered-cases P none k x without with_it = set_key-cases P k x without with_it
  remembered-cases P (some old) k x without with_it = without

  abbrev Sound : Session → Type 0
  Sound x = (length x.nonce ≡ 24) × (length x.prefix ≡ 16)

  shook-state_of :
      (r r' : Random) (key line_key : Key) (x : Session)
      → Sound x
      → IsSession N (apply_handshake N r r' key line_key (state_of N x)).0
  shook-state_of r r' key line_key x (n, p) =
      let moves = apply_handshake-state_of N r r' key line_key x in
      elim (Bool-cases (differs x.remote key)) [
        | inl e ↦
            let refused : apply_handshake N r r' key line_key (state_of N x)
                ≡ (state_of N x, false) =
              moves ∙ rw (e) refl in
            record {
              session = x;
              same = ap (λ (q : State × Bool). q.0) refused;
              nonce_length = n;
              prefix_length = p;
            }
        | inr e ↦
            let y = after_handshake N key line_key x in
            let (n', p') : Sound y =
              remembered-cases Sound x.remote key (with_peer N line_key x) (n, p) (n, p) in
            let taken : apply_handshake N r r' key line_key (state_of N x) ≡ (state_of N y, true) =
              moves ∙ rw (e) refl in
            record {
              session = y;
              same = ap (λ (q : State × Bool). q.0) taken;
              nonce_length = n';
              prefix_length = p';
            }
      ]

  module _ (j : Json) where
    pub Reach-IsSession : (s : State) → Reach N j s → IsSession N s
    Reach-IsSession s (started r k _ g e) = record {
      session = new_session N k g.line r;
      same =
          some_if (is_some k.pub_key && is_some k.prv_key) (state_of N (new_session N k g.line r)) s
            (sym (new_state-state_of N r k g.line g.made) ∙ e);
      nonce_length = g.nonce_length;
      prefix_length = g.prefix_length;
    }
    Reach-IsSession _ (keyed r k s reach) =
        let was = Reach-IsSession s reach in
        let x = was.session in
        let (n, p) : Sound (set_key N k x) =
          set_key-cases Sound k x (was.nonce_length, was.prefix_length)
            (was.nonce_length, was.prefix_length) in
        record {
          session = set_key N k x;
          same =
              ap (λ s. (set_remote_key N r k s).0) was.same
              ∙ ap (λ q. q.0) (set_remote_key-state_of N r k x);
          nonce_length = n;
          prefix_length = p;
        }
    Reach-IsSession _ (shook r r' key line_key s reach) =
        let was = Reach-IsSession s reach in
        subst (λ s. IsSession N (apply_handshake N r r' key line_key s).0) (sym was.same)
          (shook-state_of r r' key line_key was.session (was.nonce_length, was.prefix_length))
    Reach-IsSession s' (sent pkt outer s _ reach e) =
        let was = Reach-IsSession s reach in
        record {
          session = record was.session { suffix = next_suffix s };
          same =
              subst (Counts s) e (encrypt_packet-Counts N j pkt s)
              ∙ ap (λ (t : State). numbered t (next_suffix s)) was.same;
          nonce_length = was.nonce_length;
          prefix_length = was.prefix_length;
        }
