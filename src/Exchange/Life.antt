-- ===== src/Exchange/Life.antt =====
-- e3x/exchange.go: the life of an exchange, from its first handshake to its end.
use gogotelehash.Lob.Packet.{Bytes}
use gogotelehash.Lob.Parse.{Json}
use gogotelehash.Lob.Coder
use gogotelehash.Exchange.{
  ExchangeState, initialising, dialing, idle, active, expired, broken, is_open, is_closed, Exchange,
  Answer, answer, add_channel, open_channel, remove_channel, reset_expire, expire, on_expire,
  take_channel, mark_dialing, on_break, get_next_channel_id, get_next_seq, reset_break, open_from,
  is_local_seq, waits, broken_exchange,
}
use gogotelehash.Exchange.Handshakes.{
  start_dial, on_deliver_handshake, Handshake, apply_handshake, received_handshake, started,
  responded, generate_handshake, reschedule_handshake, Generated, encrypted, note_local_seq,
  cipher_error, encoded, started_from, dial_from,
}
use gogotelehash.Prelude.{
  ℕ, ◌≡◌, arith, ap, Bool, true, not, Option, refl, sym, ◌∙◌, none, some, ◌==◌, if◌then◌else◌,
  false, ◌&&◌, ltb, if_intro, subst,
}
use mathlib.Core.Bool.{true≢false}

-- An exchange that is open knows its peer.
abbrev pub KnowsPeer : Exchange → Type 0
KnowsPeer x = is_open x.state ≡ true → x.known ≡ true

module _ (j : Json) (encrypt : ℕ → Option Bytes) where
  -- The critical sections of an exchange, which its goroutines run in any order. `takes` is the end of
  -- the promise of `receivedPacket`; `marks` is the write to the state in `accept` of the endpoint, which
  -- does not hold the lock of the exchange.
  pub data Step (x : Exchange) : Exchange → Type 0 where
    opens : {y : Exchange} (c id : ℕ) → open_channel c x ≡ answer (y, id) → Step x y
    removes : (id : ℕ) → Step x (remove_channel id x)
    resets : Step x (reset_expire x)
    expires : Step x (on_expire x)
    breaks : Step x (on_break x)
    dials : (now r : ℕ) → Step x (start_dial j encrypt now r x)
    delivers : (now r : ℕ) → Step x (on_deliver_handshake j encrypt now r x)
    receives : (now : ℕ) (hs : Handshake) → Step x (received_handshake j encrypt now hs x)
    applies : (now : ℕ) (hs : Handshake) → Step x (apply_handshake j encrypt now hs x).0
    takes : (id c : ℕ) → Step x (take_channel id c x)
    marks : Step x (mark_dialing x)

  pub data Reach (x : Exchange) : Exchange → Type 0 where
    here : Reach x x
    next : {y z : Exchange} → Reach x y → Step y z → Reach x z

  -- A step under the lock of the exchange.
  abbrev pub IsLocked : {x y : Exchange} → Step x y → Type 0
  IsLocked (opens c id e) = Unit
  IsLocked (removes id) = Unit
  IsLocked resets = Unit
  IsLocked expires = Unit
  IsLocked breaks = Unit
  IsLocked (dials now r) = Unit
  IsLocked (delivers now r) = Unit
  IsLocked (receives now hs) = Unit
  IsLocked (applies now hs) = Unit
  IsLocked (takes id c) = Unit
  IsLocked marks = ⊥

  -- A run of them.
  abbrev pub AllLocked : {x y : Exchange} → Reach x y → Type 0
  AllLocked here = Unit
  AllLocked (next r s) = AllLocked r × IsLocked s

  -- What a step keeps.
  record Lives (x y : Exchange) : Type 0 where
    stays_closed : is_closed x.state ≡ true → y.state ≡ x.state
    knows : KnowsPeer x → KnowsPeer y

  -- A call that moves only numbers and timers.
  record Same (x y : Exchange) : Type 0 where
    same_state : y.state ≡ x.state
    same_known : y.known ≡ x.known

  Same-Lives : (x y : Exchange) → Same x y → Lives x y
  Same-Lives x y s = record {
    stays_closed = λ c. s.same_state;
    knows = λ k o. s.same_known ∙ k (ap is_open (sym s.same_state) ∙ o);
  }

  Same-trans : {x y z : Exchange} → Same x y → Same y z → Same x z
  Same-trans s t = record {
    same_state = t.same_state ∙ s.same_state;
    same_known = t.same_known ∙ s.same_known;
  }

  Lives-trans : {x y z : Exchange} → Lives x y → Lives y z → Lives x z
  Lives-trans l m = record {
    stays_closed = λ c. m.stays_closed (ap is_closed (l.stays_closed c) ∙ c) ∙ l.stays_closed c;
    knows = λ k. m.knows (l.knows k);
  }

  note_local_seq-Same :
      (seq : ℕ) (o : Coder.Outcome Bytes) (x : Exchange) → Same x (note_local_seq seq o x)
  note_local_seq-Same seq (Coder.ok b) x = record { same_state = refl; same_known = refl }
  note_local_seq-Same seq Coder.invalid_packet x = record { same_state = refl; same_known = refl }
  note_local_seq-Same seq Coder.encoding_error x = record { same_state = refl; same_known = refl }
  note_local_seq-Same seq Coder.panics x = record { same_state = refl; same_known = refl }

  encrypted-Same :
      (x : Exchange) (seq : ℕ) (o : Option Bytes) → Same x (encrypted j encrypt x seq o).0
  encrypted-Same x seq none = record { same_state = refl; same_known = refl }
  encrypted-Same x seq (some body) = note_local_seq-Same seq _ x

  get_next_seq-Same :
      (now seq : ℕ) (x : Exchange) → Same x (if seq == 0 then get_next_seq now x else (x, seq)).0
  unfolding get_next_seq
  get_next_seq-Same now seq x = record { same_state = ground arith; same_known = ground arith }

  generate_handshake-Same :
      (now seq : ℕ) (x : Exchange) → Same x (generate_handshake j encrypt now seq x).0
  unfolding generate_handshake
  generate_handshake-Same now seq x =
      Same-trans (get_next_seq-Same now seq x) (encrypted-Same _ _ _)

  reset_expire-Lives : (x : Exchange) → Lives x (reset_expire x)
  unfolding reset_expire
  reset_expire-Lives x = record {
    stays_closed = λ c. ground arith;
    knows = λ k o. ground (arith, k);
  }

  expire-Lives : (b : Bool) (x : Exchange) → Lives x (expire b x)
  unfolding expire
  expire-Lives b x = record { stays_closed = λ c. ground arith; knows = λ k o. ground (arith, k) }

  -- A step from a state that is not closed to an exchange that knows its peer.
  fresh-Lives :
      (x y : Exchange) → is_closed x.state ≡ false → (KnowsPeer x → KnowsPeer y) → Lives x y
  fresh-Lives x y living k = record {
    stays_closed = λ c. absurd (true≢false (sym c ∙ living));
    knows = k;
  }

  reset_expire-known : (x : Exchange) → (reset_expire x).known ≡ x.known
  unfolding reset_expire
  reset_expire-known x = ground arith

  started_from-Lives :
      (s : ExchangeState) (x : Exchange) → x.state ≡ s → x.known ≡ true → Lives x (started_from s x)
  started_from-Lives dialing x e known =
      fresh-Lives x _ (ap is_closed e) (λ k o. reset_expire-known _ ∙ known)
  started_from-Lives initialising x e known =
      fresh-Lives x _ (ap is_closed e) (λ k o. reset_expire-known _ ∙ known)
  started_from-Lives idle x e known =
      Same-Lives x x (record { same_state = refl; same_known = refl })
  started_from-Lives active x e known =
      Same-Lives x x (record { same_state = refl; same_known = refl })
  started_from-Lives expired x e known =
      Same-Lives x x (record { same_state = refl; same_known = refl })
  started_from-Lives broken x e known =
      Same-Lives x x (record { same_state = refl; same_known = refl })

  started-Lives : (x : Exchange) → x.known ≡ true → Lives x (started x)
  unfolding started
  started-Lives x known = started_from-Lives x.state x refl known

  Lives-refl : (x : Exchange) → Lives x x
  Lives-refl x = Same-Lives x x (record { same_state = refl; same_known = refl })

  responded-Lives : (x : Exchange) (g : Generated) → x.known ≡ true → Lives x (responded (x, g)).0
  responded-Lives x cipher_error k = Lives-refl x
  responded-Lives x (encoded (Coder.ok b)) k = started-Lives x k
  responded-Lives x (encoded Coder.invalid_packet) k = Lives-refl x
  responded-Lives x (encoded Coder.encoding_error) k = Lives-refl x
  responded-Lives x (encoded Coder.panics) k = Lives-refl x

  add_channel-Lives : (c : ℕ) (x : Exchange) → Lives x (add_channel c x).0
  unfolding add_channel get_next_channel_id
  add_channel-Lives c x =
      Lives-trans (Same-Lives x _ (record { same_state = refl; same_known = refl }))
        (reset_expire-Lives _)

  -- The exchange in an answer of `Open`.
  abbrev opened : Exchange → Answer (Exchange × ℕ) → Exchange
  opened x (answer r) = r.0
  opened x waits = x
  opened x broken_exchange = x

  open_from-Lives :
      (s : ExchangeState) (c id : ℕ) (x y : Exchange) → open_from s c x ≡ answer (y, id) → Lives x y
  open_from-Lives idle c id x y e = subst (Lives x) (ap (opened x) e) (add_channel-Lives c x)
  open_from-Lives active c id x y e = subst (Lives x) (ap (opened x) e) (add_channel-Lives c x)
  open_from-Lives initialising c id x y e = absurd (ground arith)
  open_from-Lives dialing c id x y e = absurd (ground arith)
  open_from-Lives expired c id x y e = absurd (ground arith)
  open_from-Lives broken c id x y e = absurd (ground arith)

  dial_from-Lives :
      (s : ExchangeState) (now r : ℕ) (x : Exchange)
      → x.state ≡ s
      → Lives x (dial_from j encrypt s now r x)
  unfolding reschedule_handshake
  dial_from-Lives initialising now r x e =
      let g = generate_handshake-Same now 0 (record x { state = dialing }) in
      fresh-Lives x _ (ap is_closed e)
        (λ k o. absurd (true≢false (sym o ∙ ap is_open g.same_state)))
  dial_from-Lives dialing now r x e = Lives-refl x
  dial_from-Lives idle now r x e = Lives-refl x
  dial_from-Lives active now r x e = Lives-refl x
  dial_from-Lives expired now r x e = Lives-refl x
  dial_from-Lives broken now r x e = Lives-refl x

  on_deliver_handshake-Lives :
      (now r : ℕ) (x : Exchange) → Lives x (on_deliver_handshake j encrypt now r x)
  unfolding on_deliver_handshake reschedule_handshake
  on_deliver_handshake-Lives now r x = Same-Lives x _ (
      Same-trans (record { same_state = refl; same_known = refl })
        (generate_handshake-Same now 0 _))

  apply_handshake-Lives :
      (now : ℕ) (hs : Handshake) (x : Exchange) → Lives x (apply_handshake j encrypt now hs x).0
  unfolding apply_handshake
  apply_handshake-Lives now hs x =
      let P = λ (r : Exchange × Bool). Lives x r.0 in
      let y : Exchange = record x { high = hs.high; known = true } in
      let first : Lives x y = record { stays_closed = λ c. refl; knows = λ k o. refl } in
      let g = generate_handshake-Same now hs.at y in
      if_intro P (ltb hs.at x.last_remote_seq) (λ _. Lives-refl x)
        (λ _.
          if_intro P (not (hs.csid == x.csid)) (λ _. Lives-refl x)
            (λ _.
              if_intro P (not hs.accepted) (λ _. Lives-refl x)
                (λ _.
                  if_intro P (not x.known && not hs.identity)
                    (λ _. Same-Lives x _ (record { same_state = refl; same_known = refl }))
                    (λ _.
                      if_intro P (is_local_seq y hs.at)
                        (λ _. Lives-trans first (
                          Lives-trans
                            (Same-Lives y _ (record { same_state = refl; same_known = refl }))
                            (started-Lives (reset_break y) refl)))
                        (λ _.
                          Lives-trans first
                            (Lives-trans (Same-Lives y _ g) (responded-Lives _ _ g.same_known)))))))

  received_handshake-Lives :
      (now : ℕ) (hs : Handshake) (x : Exchange) → Lives x (received_handshake j encrypt now hs x)
  unfolding received_handshake
  received_handshake-Lives now hs x =
      let l = apply_handshake-Lives now hs x in
      let r = apply_handshake j encrypt now hs x in
      if_intro (Lives x) r.1
        (λ _. Lives-trans l (Same-Lives r.0 _ (record { same_state = refl; same_known = refl })))
        (λ _. l)

  take_channel-Lives : (id c : ℕ) (x : Exchange) → Lives x (take_channel id c x)
  take_channel-Lives id c x =
      Lives-trans (Same-Lives x _ (record { same_state = refl; same_known = refl }))
        (reset_expire-Lives _)

  Step-Lives : {x y : Exchange} (s : Step x y) → IsLocked s → Lives x y
  unfolding open_channel remove_channel on_expire on_break start_dial
  Step-Lives {x} {y} (opens c id e) l = open_from-Lives x.state c id x y e
  Step-Lives {x} (removes id) l = Same-Lives x _ (record { same_state = refl; same_known = refl })
  Step-Lives {x} resets l = reset_expire-Lives x
  Step-Lives {x} expires l = expire-Lives false x
  Step-Lives {x} breaks l = expire-Lives true x
  Step-Lives {x} (dials now r) l = dial_from-Lives x.state now r x refl
  Step-Lives {x} (delivers now r) l = on_deliver_handshake-Lives now r x
  Step-Lives {x} (receives now hs) l = received_handshake-Lives now hs x
  Step-Lives {x} (applies now hs) l = apply_handshake-Lives now hs x
  Step-Lives {x} (takes id c) l = take_channel-Lives id c x
  Step-Lives marks l = absurd l

  -- Each step is one under the lock, or leads to a state that is not open.
  Step-KnowsPeer : {x y : Exchange} → Step x y → KnowsPeer x → KnowsPeer y
  Step-KnowsPeer (opens c id e) k = (Step-Lives (opens c id e) tt).knows k
  Step-KnowsPeer {x} (removes id) k = (Step-Lives {x = x} (removes id) tt).knows k
  Step-KnowsPeer {x} resets k = (Step-Lives {x = x} resets tt).knows k
  Step-KnowsPeer {x} expires k = (Step-Lives {x = x} expires tt).knows k
  Step-KnowsPeer {x} breaks k = (Step-Lives {x = x} breaks tt).knows k
  Step-KnowsPeer {x} (dials now r) k = (Step-Lives {x = x} (dials now r) tt).knows k
  Step-KnowsPeer {x} (delivers now r) k = (Step-Lives {x = x} (delivers now r) tt).knows k
  Step-KnowsPeer {x} (receives now hs) k = (Step-Lives {x = x} (receives now hs) tt).knows k
  Step-KnowsPeer {x} (applies now hs) k = (Step-Lives {x = x} (applies now hs) tt).knows k
  Step-KnowsPeer {x} (takes id c) k = (Step-Lives {x = x} (takes id c) tt).knows k
  Step-KnowsPeer marks k = λ o. absurd (true≢false (sym o))

  -- Under every interleaving of calls, handshakes and timers, also with that write, an exchange that knows
  -- its peer if it is open goes on doing so: none is ever opened for an unknown peer.
  pub Reach-KnowsPeer : {x y : Exchange} → KnowsPeer x → Reach x y → KnowsPeer y
  Reach-KnowsPeer k here = k
  Reach-KnowsPeer k (next r s) = Step-KnowsPeer s (Reach-KnowsPeer k r)
