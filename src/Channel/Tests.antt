-- ===== src/Channel/Tests.antt =====
-- e3x/channel.go: runs of the model on concrete channels.
use gogotelehash.Lob.Packet.{Packet, empty_header, Header}
use gogotelehash.Channel.Types.{
  Channel, ExchangeI, new_channel, ReadBufferEntry, WriteBufferEntry, running, Error, nil, Timer,
}
use gogotelehash.Channel.Guards.{block_read, block_write}
use gogotelehash.Channel.Deadlines.{kill, on_close_deadline_reached, on_open_deadline_reached}
use gogotelehash.Channel.Miss.{build_miss_list, miss_seqs}
use gogotelehash.Channel.Miss.Decode.{requested, miss_seqs-build_miss_list}
use gogotelehash.Channel.Read.{
  Attempt, Read, waits, done, read_packet_attempt, write_packet_to, peek_packet, panics, peek_entry,
}
use gogotelehash.Channel.Receive.{
  received_packet, receive_ack, Outcome, duplicate, index_of, receive_seq, see_seq,
}
use gogotelehash.Channel.Receive.Ack.{receive_ack_lem, received_packet_forever, between}
use gogotelehash.Channel.Send.{write, inline_ack}
use gogotelehash.Channel.Step.{Reach, here, next, receives, writes, reads}
use gogotelehash.Channel.Close.{ClosePhase, close_step, CloseStep}
use gogotelehash.Channel.Outcome.{blocked_writer_stays}
use gogotelehash.Channel.Invariant.Defs.{IsWellFormed, view}
use gogotelehash.Channel.Invariant.Step.{
  new_channel-Reach-IsWellFormed, new_channel-Reach-ne-panics,
}
use gogotelehash.Channel.Invariant.Gap.{HasGap, Reach-HasGap}
use gogotelehash.Channel.Invariant.Delivery.{Delivers, read_packet_attempt-Delivers}
use gogotelehash.Prelude.Map.{lookup}
use gogotelehash.Prelude.{
  ℕ, ◌≡◌, refl, arith, Option, some, none, ◌-◌, ◌^◌, ◌≢◌, true, false, [], ◌∷◌, if◌then◌else◌,
}
use Prim.Native.Nat.{max}
use gogotelehash.Channel.Invariant.Grow.{Grows, received_packet-Grows}
use gogotelehash.Channel.Refine.{
  History, Represents, Answers, Runs, read_packet_attempt-Answers, Reach-Runs,
}

-- An exchange that delivers everything.
abbrev quiet : ExchangeI
quiet = record { deliver_packet = λ log pkt dst. none }

abbrev packet : ℕ → Packet
packet n = record {
  header = record empty_header { c = 2; has_c = true; seq = n; has_seq = true };
  body = 1 ∷ 2 ∷ [];
}

abbrev sent : ℕ → WriteBufferEntry
sent n = record { pkt = packet n; end = false; last_resend = 0; dst = none }

abbrev buffered : ℕ → ReadBufferEntry
buffered n = record { pkt = packet n; seq = n; end = false }

-- A reliable channel of a server that has read one packet and sent two.
abbrev opened : Channel
opened = record {
  x = quiet;
  serverside = true;
  id = 2;
  typ = [];
  hashname = [];
  reliable = true;
  broken = false;
  o_seq = 2;
  i_buffered_seq = 1;
  i_seen_seq = 1;
  i_seq = 1;
  o_acked_seq = 0;
  i_acked_seq = 0;
  delivered_end = false;
  received_end = false;
  read_end = false;
  needs_resend = false;
  open_deadline_reached = false;
  write_deadline_reached = false;
  read_deadline_reached = false;
  close_deadline_reached = false;
  read_buffer = [];
  write_buffer = (1, sent 1) ∷ (2, sent 2) ∷ [];
  t_open_deadline = Timer.stopped;
  t_close_deadline = nil;
  t_read_deadline = Timer.stopped;
  t_write_deadline = Timer.stopped;
  t_resend = running 1;
  t_acker = running 1;
  log = [];
}

-- The same, when packet 3 has come before packet 2, and when packet 2 has come.
abbrev gapped : Channel
gapped = record opened { i_buffered_seq = 3; i_seen_seq = 3; read_buffer = buffered 3 ∷ [] }

abbrev ready : Channel
ready = record opened { i_buffered_seq = 2; i_seen_seq = 2; read_buffer = buffered 2 ∷ [] }

-- A client that has written its opening packet and waits for the answer.
abbrev waiting : Channel
waiting = record opened {
  serverside = false;
  i_seq = 0;
  o_seq = 1;
  i_buffered_seq = 0;
  i_seen_seq = 0;
}

opened-IsWellFormed : IsWellFormed opened
opened-IsWellFormed = record {
  read_side = record {
    ordered = tt;
    bounded = omega arith;
    buffered = tt;
    read_buffered = omega arith;
    seen = λ _. tt;
    read_seen = λ _. omega arith;
  };
  acked = omega arith;
  window = omega arith;
}

gapped-IsWellFormed : IsWellFormed gapped
gapped-IsWellFormed = record {
  read_side = record {
    ordered = (omega arith, tt);
    bounded = omega arith;
    buffered = (omega arith, tt);
    read_buffered = omega arith;
    seen = λ _. (omega arith, tt);
    read_seen = λ _. omega arith;
  };
  acked = omega arith;
  window = omega arith;
}

ready-IsWellFormed : IsWellFormed ready
ready-IsWellFormed = record {
  read_side = record {
    ordered = (omega arith, tt);
    bounded = omega arith;
    buffered = (omega arith, tt);
    read_buffered = omega arith;
    seen = λ _. (omega arith, tt);
    read_seen = λ _. omega arith;
  };
  acked = omega arith;
  window = omega arith;
}

gapped-HasGap : HasGap (buffered 3) (view gapped)
gapped-HasGap = record { rest = []; first = refl; missing = omega arith }

-- The missing packet comes, and is dropped as a duplicate.
gapped_drops : received_packet 5 0 gapped (packet 2) ≡ some (gapped, duplicate)
unfolding received_packet receive_seq see_seq index_of
gapped_drops = refl

gapped-Reach : Reach gapped gapped
gapped-Reach = next here (receives 5 0 (packet 2) duplicate gapped_drops)

Reach-HasGap_example : HasGap (buffered 3) (view gapped) × (gapped.i_seq ≡ gapped.i_seq)
Reach-HasGap_example = Reach-HasGap (buffered 3) gapped-IsWellFormed gapped-HasGap gapped-Reach

abbrev fresh : Channel
fresh = new_channel (7 ∷ []) (8 ∷ []) true false quiet

abbrev written : Attempt (Channel × Option Error) → Channel
written (done r) = r.0
written waits = fresh
written panics = fresh

-- The channel of a client behind its first write.
abbrev begun : Channel
begun = written (write_packet_to fresh (packet 0) none)

fresh_writes : write_packet_to fresh (packet 0) none ≡ done (begun, none)
unfolding write_packet_to new_channel block_write write inline_ack
fresh_writes = refl

begun-Reach : Reach fresh begun
begun-Reach = next here (writes (packet 0) none none fresh_writes)

new_channel-Reach-IsWellFormed_example : IsWellFormed begun
new_channel-Reach-IsWellFormed_example =
    new_channel-Reach-IsWellFormed (7 ∷ []) (8 ∷ []) true false quiet begun-Reach

new_channel-Reach-ne-panics_example :
    (read_packet_attempt begun ≢ Attempt.panics)
    × ((p : ClosePhase) → close_step p begun ≢ CloseStep.panic)
new_channel-Reach-ne-panics_example =
    new_channel-Reach-ne-panics (7 ∷ []) (8 ∷ []) true false quiet begun-Reach

abbrev read_of : Attempt Read → Read
read_of (done r) = r
read_of waits = record { chan = ready; pkt = none; error = none }
read_of panics = record { chan = ready; pkt = none; error = none }

ready_reads : read_packet_attempt ready ≡ done (read_of (read_packet_attempt ready))
unfolding read_packet_attempt block_read peek_packet peek_entry
ready_reads = refl

read_packet_attempt-Delivers_example : Delivers ready (read_of (read_packet_attempt ready))
read_packet_attempt-Delivers_example =
    read_packet_attempt-Delivers ready (read_of (read_packet_attempt ready)) ready-IsWellFormed
      ready_reads

miss_seqs-build_miss_list_example : miss_seqs 1 (build_miss_list gapped) ≡ requested gapped
miss_seqs-build_miss_list_example =
    miss_seqs-build_miss_list gapped gapped-IsWellFormed.read_side refl (omega arith)

-- Packet 3 is asked for again, although it is buffered.
gapped-requested : requested gapped ≡ 2 ∷ 3 ∷ 101 ∷ []
gapped-requested = refl

abbrev ack_header : Header
ack_header = record empty_header { ack = 1; has_ack = true }

receive_ack_lem_example :
    (d : Channel) × (receive_ack 9 0 opened ack_header ≡ some d)
    × (d.o_acked_seq ≡ max 0 1)
    × ((k : ℕ)
        → lookup k d.write_buffer ≡ (if between 1 1 k then none else lookup k opened.write_buffer))
receive_ack_lem_example =
    receive_ack_lem 9 0 opened ack_header (omega arith) (omega arith) (omega arith) refl

abbrev highest_ack : Packet
highest_ack = record {
  header = record empty_header { ack = 2 ^ 32 - 1; has_ack = true };
  body = [];
}

received_packet_forever_example : received_packet 50 0 opened highest_ack ≡ none
received_packet_forever_example =
    received_packet_forever 50 0 opened highest_ack refl refl refl refl

received_packet-Grows_example :
    (d : Channel) × (o : Outcome) × (received_packet 5 0 opened (packet 2) ≡ some (d, o))
    × Grows opened d (packet 2) o
received_packet-Grows_example =
    received_packet-Grows 5 0 opened (packet 2) opened-IsWellFormed (omega arith) (omega arith)
      (omega arith)

abbrev broken : Channel
broken = record opened { broken = true }

waiting_blocks : block_write waiting ≡ true
unfolding block_write
waiting_blocks = refl

blocked_writer_stays_example :
    (write_packet_to (kill waiting) (packet 0) none ≡ waits)
    × (write_packet_to (on_close_deadline_reached waiting) (packet 0) none ≡ waits)
    × (write_packet_to (on_open_deadline_reached waiting) (packet 0) none ≡ waits)
blocked_writer_stays_example = blocked_writer_stays waiting (packet 0) none waiting_blocks

-- The number 5 is not in the buffer, and yet its index is answered.
index_of_missing : index_of (buffered 3 ∷ buffered 7 ∷ []) 5 ≡ some 1
unfolding index_of
index_of_missing = refl

-- Packet 1 was handed out, packet 2 is pending.
abbrev one_handed : History
one_handed = record { accepted = buffered 1 ∷ buffered 2 ∷ []; handed = buffered 1 ∷ [] }

ready-Represents : Represents (view ready) one_handed
ready-Represents = record { pending = refl; counted = refl }

read_packet_attempt-Answers_example :
    (t : History) × Answers one_handed t (read_of (read_packet_attempt ready))
    × Represents (view (read_of (read_packet_attempt ready)).chan) t
read_packet_attempt-Answers_example =
    read_packet_attempt-Answers ready (read_of (read_packet_attempt ready)) one_handed
      ready-IsWellFormed ready-Represents ready_reads

ready-Reach : Reach ready (read_of (read_packet_attempt ready)).chan
ready-Reach = next here (reads (read_of (read_packet_attempt ready)) ready_reads)

Reach-Runs_example :
    (t : History) × Runs one_handed t
    × Represents (view (read_of (read_packet_attempt ready)).chan) t
Reach-Runs_example = Reach-Runs one_handed ready-IsWellFormed ready-Represents ready-Reach
