-- ===== src/Exchange/Handshakes.antt =====
-- e3x/exchange.go: handshakes. The cipher state, the encryption of a handshake among it, is a
-- parameter.
use gogotelehash.Lob.Packet.{Bytes, empty_header}
use gogotelehash.Lob.Parse.{Json}
use gogotelehash.Lob.Coder.{encode}
use gogotelehash.Lob.Coder
use gogotelehash.Channel.Types.{running, second}
use gogotelehash.Prelude.{
  ℕ, Bool, true, false, not, Option, none, some, [], ◌∷◌, ltb, if◌then◌else◌, ◌==◌, ◌%◌, ◌*◌, ◌-◌,
  ◌/◌, ◌&&◌, ◌∷◌, ltb,
}
use gogotelehash.Exchange.{
  ExchangeState, Exchange, at_least, get_next_seq, is_local_seq, reset_expire, reset_break,
  initialising, dialing, idle, active, expired, broken,
}

-- `generateHandshake`: the encryption may fail, and so may the encoding.
pub data Generated : Type 0 where
  cipher_error : Generated
  encoded : Coder.Outcome Bytes → Generated

abbrev pub note_local_seq : ℕ → Coder.Outcome Bytes → Exchange → Exchange
note_local_seq seq (Coder.ok b) x = record x { last_local_seq = at_least seq x.last_local_seq }
note_local_seq seq _ x = x

-- `rescheduleHandshake`, with the random number `r`.
abbrev pub backoff : ℕ → ℕ → ℕ
backoff n r =
    let doubled = if n == 0 then 4 else n * 2 in
    let capped = if ltb 60 doubled then 60 else doubled in
    if ltb 0 (capped / 3) then capped - r % (capped / 3) else capped

unfoldable pub reschedule_handshake : ℕ → Exchange → Exchange
reschedule_handshake r x =
    let n = backoff x.next_handshake r in
    record x { next_handshake = n; t_deliver_handshake = running (n * second) }

-- A handshake as the cipher set sees it: whether the cipher state takes it, whether it makes an
-- identity, and what `IsHigh` answers from then on.
pub record Handshake : Type 0 where
  pub at : ℕ
  pub csid : ℕ
  pub accepted : Bool
  pub identity : Bool
  pub high : Bool

-- From `if x.state == ExchangeDialing || …` on.
abbrev pub started_from : ExchangeState → Exchange → Exchange
started_from dialing x = reset_expire (record x { state = idle })
started_from initialising x = reset_expire (record x { state = idle })
started_from idle x = x
started_from active x = x
started_from expired x = x
started_from broken x = x

unfoldable pub started : Exchange → Exchange
started x = started_from x.state x

abbrev pub responded : Exchange × Generated → Exchange × Bool
responded (x, encoded (Coder.ok b)) = (started x, true)
responded (x, _) = (x, false)

module _ (j : Json) (encrypt : ℕ → Option Bytes) where
  abbrev pub encrypted : Exchange → ℕ → Option Bytes → Exchange × Generated
  encrypted x seq none = (x, cipher_error)
  encrypted x seq (some body) =
      let data_out =
        encode j (record { header = record empty_header { bytes = x.csid ∷ [] }; body = body }) in
      (note_local_seq seq data_out x, encoded data_out)

  unfoldable pub generate_handshake : ℕ → ℕ → Exchange → Exchange × Generated
  unfolding get_next_seq
  generate_handshake now seq x =
      let r = if seq == 0 then get_next_seq now x else (x, seq) in encrypted r.0 r.1 (encrypt r.1)

  -- The start of `Dial`: the first call sends a handshake, whose failure it does not look at, and sets
  -- the timer.
  abbrev pub dial_from : ExchangeState → ℕ → ℕ → Exchange → Exchange
  dial_from initialising now r x =
      reschedule_handshake r (generate_handshake now 0 (record x { state = dialing })).0
  dial_from dialing now r x = x
  dial_from idle now r x = x
  dial_from active now r x = x
  dial_from expired now r x = x
  dial_from broken now r x = x

  unfoldable pub start_dial : ℕ → ℕ → Exchange → Exchange
  start_dial now r x = dial_from x.state now r x

  unfoldable pub on_deliver_handshake : ℕ → ℕ → Exchange → Exchange
  unfolding generate_handshake reschedule_handshake
  on_deliver_handshake now r x = (generate_handshake now 0 (reschedule_handshake r x)).0

  -- `applyHandshake`, with the flag `ok`; the response is in the state only by its number.
  unfoldable pub apply_handshake : ℕ → Handshake → Exchange → Exchange × Bool
  unfolding is_local_seq generate_handshake started
  apply_handshake now hs x =
      let y = record x { high = hs.high; known = true } in
      if ltb hs.at x.last_remote_seq
      then (x, false)
      else if not (hs.csid == x.csid)
      then (x, false)
      else if not hs.accepted
      then (x, false)
      else if not x.known && not hs.identity
      then (record x { high = hs.high }, false)
      else if is_local_seq y hs.at
      then (started (reset_break y), true)
      else responded (generate_handshake now hs.at y)

  -- `receivedHandshake` from `applyHandshake` on.
  unfoldable pub received_handshake : ℕ → Handshake → Exchange → Exchange
  unfolding apply_handshake
  received_handshake now hs x =
      let (y, ok) = apply_handshake now hs x in
      if ok then record y { last_remote_seq = hs.at } else y
