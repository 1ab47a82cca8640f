-- ===== src/Cipher/Cs3a/Link.antt =====
-- e3x/cipherset/cs3a/cs3a_cipher.go: two sides that took each other's handshake.
use gogotelehash.Cipher.Token.{token_of}
use gogotelehash.Cipher.Cs3a.{
  Nacl, Key, Random, State, apply_handshake, differs, key_between, line_token,
}
use gogotelehash.Cipher.Cs3a.Contract.{IsNacl}
use gogotelehash.Cipher.Cs3a.Line.RoundTrip.{Linked}
use gogotelehash.Cipher.Cs3a.Session.{
  Session, encrypts_with, decrypts_with, state_of, with_peer, after_handshake,
  apply_handshake-state_of, half,
}
use gogotelehash.Lob.Parse.{Json}
use gogotelehash.Prelude.{
  ◌≡◌, refl, ap, Bool, true, false, Option, none, some, length, sym, ◌∙◌, inl, inr, Bool-cases,
  take, arith, length-take,
}
use gogotelehash.Cipher.Cs3a.Reach.{Reach, Reach-IsSession, remembered-cases}

-- The public half of a line key, as a handshake carries it.
abbrev pub half_of : Option Key → Key
half_of none = record { pub_key = none; prv_key = none }
half_of (some k) = record { pub_key = k.pub_key; prv_key = none }

abbrev pub line_half : State → Key
line_half s = half_of s.local_line_key

module _ (N : Nacl) (laws : IsNacl N) where
  state_of-Linked :
      (x y : Session)
      → x.peer ≡ some (half N y.line)
      → y.peer ≡ some (half N x.line)
      → length x.prefix ≡ 16
      → Linked (state_of N x) (state_of N y)
  state_of-Linked x y to from p =
      let mine = N.public_of x.line in
      let theirs = N.public_of y.line in
      record {
        key = key_between N (N.precompute theirs x.line) mine theirs;
        encrypts = ap (encrypts_with N x.line) to;
        decrypts =
            ap (decrypts_with N y.line) from
            ∙ ap (λ shared. some (key_between N shared mine theirs)) (laws.agree x.line y.line);
        token = token_of N.sha256 theirs;
        writes = ap (line_token N) to;
        found_by = refl;
        token_length =
            length-take 16 (N.sha256 (take 16 theirs))
              (omega (arith, laws.length_sha (take 16 theirs)));
        prefix = x.prefix;
        nonce_prefix = refl;
        prefix_length = p;
      }

  taken :
      (r r' : Random) (key line_key : Key) (x : Session) (s : State)
      → apply_handshake N r r' key line_key (state_of N x) ≡ (s, true)
      → s ≡ state_of N (after_handshake N key line_key x)
  taken r r' key line_key x s e =
      let moves = apply_handshake-state_of N r r' key line_key x in
      elim (Bool-cases (differs x.remote key)) [
        | inl d ↦
            let refused : apply_handshake N r r' key line_key (state_of N x)
                ≡ (state_of N x, false) =
              moves ∙ rw (d) refl in
            absurd cc
        | inr d ↦
            let took : apply_handshake N r r' key line_key (state_of N x)
                ≡ (state_of N (after_handshake N key line_key x), true) =
              moves ∙ rw (d) refl in
            ap (λ (q : State × Bool). q.0) (sym e ∙ took)
      ]

  abbrev Holds : Key → Session → Session → Type 0
  Holds k x y = (y.peer ≡ some k) × (y.line ≡ x.line) × (y.prefix ≡ x.prefix)

  after_handshake-Holds :
      (key line_key : Key) (x : Session) → Holds line_key x (after_handshake N key line_key x)
  after_handshake-Holds key line_key x =
      remembered-cases N (Holds line_key x) x.remote key (with_peer N line_key x) (refl, refl, refl)
        (refl, refl, refl)

  -- Of two states that the operations lead to, each with random numbers as asked for, each takes a
  -- handshake with the other's line key and does not refuse it: both are then linked to the other.
  pub apply_handshake-Linked :
      (j : Json) (r0 r1 r2 r3 : Random) (key key' : Key) (a b a' b' : State)
      → Reach N j a
      → Reach N j b
      → apply_handshake N r0 r1 key (line_half b) a ≡ (a', true)
      → apply_handshake N r2 r3 key' (line_half a) b ≡ (b', true)
      → Linked a' b' × Linked b' a'
  apply_handshake-Linked j r0 r1 r2 r3 key key' a b a' b' from_a from_b e f =
      let p = Reach-IsSession N j a from_a in
      let q = Reach-IsSession N j b from_b in
      let x = p.session in
      let y = q.session in
      let x' = after_handshake N key (line_half b) x in
      let y' = after_handshake N key' (line_half a) y in
      let (to, line, prefix) = after_handshake-Holds key (line_half b) x in
      let (from, line', prefix') = after_handshake-Holds key' (line_half a) y in
      let is_a : a' ≡ state_of N x' =
        taken r0 r1 key (line_half b) x a'
          (ap (apply_handshake N r0 r1 key (line_half b)) (sym p.same) ∙ e) in
      let is_b : b' ≡ state_of N y' =
        taken r2 r3 key' (line_half a) y b'
          (ap (apply_handshake N r2 r3 key' (line_half a)) (sym q.same) ∙ f) in
      let to_b : x'.peer ≡ some (half N y'.line) =
        to ∙ ap some (ap line_half q.same ∙ ap (half N) (sym line')) in
      let to_a : y'.peer ≡ some (half N x'.line) =
        from ∙ ap some (ap line_half p.same ∙ ap (half N) (sym line)) in
      let there = state_of-Linked x' y' to_b to_a (ap length prefix ∙ p.prefix_length) in
      let back = state_of-Linked y' x' to_a to_b (ap length prefix' ∙ q.prefix_length) in
      rw (is_a, is_b) (there, back)
