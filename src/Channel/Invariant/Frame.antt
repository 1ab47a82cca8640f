-- ===== src/Channel/Invariant/Frame.antt =====
-- e3x/channel.go: the operations that leave the reading side as it is.
use gogotelehash.Channel.Invariant.Defs.{ReadView, view, IsOrdered, IsWellFormed}
use gogotelehash.Channel.Types.{u32, Cond, Channel, WriteBufferEntry}
use gogotelehash.Channel.Miss.{build_miss_list}
use gogotelehash.Channel.Read.{signal_if}
use gogotelehash.Channel.Send.{
  with_ack_miss, apply_ack_headers, deliver_ack, maybe_deliver_ad_hoc_ack, auto_deliver_ack,
  set_close_deadline, resend, resend_missing, process_missing, process_missing_packets,
  resend_last_packet, resend_delivery,
}
use gogotelehash.Channel.Deadlines.{on_close_deadline_reached, on_open_deadline_reached, kill}
use gogotelehash.Lob.Packet.{Packet}
use gogotelehash.Prelude.Map.{lookup, insert}
use gogotelehash.Prelude.{
  ℕ, ◌≤◌, ◌≡◌, refl, sym, ap, ◌∙◌, subst, ◌⊎◌, inl, inr, Option, some, List, [], ◌∷◌, arith,
  Option-cases, length, ◌+◌, Bool, true, false, none,
}

pub record Keeps (c d : Channel) : Type 0 where
  pub same_view : view d ≡ view c
  pub acked : (d.i_acked_seq ≡ c.i_acked_seq) ⊎ (d.i_acked_seq ≡ c.i_seq)
  pub window : length d.write_buffer ≤ length c.write_buffer

pub Keeps-refl : (c : Channel) → Keeps c c
Keeps-refl c = record { same_view = refl; acked = inl refl; window = omega arith }

pub Keeps-trans : {c d e : Channel} → Keeps c d → Keeps d e → Keeps c e
Keeps-trans h k = record {
  same_view = k.same_view ∙ h.same_view;
  acked = ground (arith, ap (λ (v : ReadView). v.i_seq) h.same_view, h.acked, k.acked);
  window = omega (arith, h.window, k.window);
}

pub Keeps-IsWellFormed : {c d : Channel} → IsWellFormed c → Keeps c d → IsWellFormed d
Keeps-IsWellFormed w k = record {
  read_side = subst IsOrdered (sym k.same_view) w.read_side;
  acked = ground (arith, ap (λ (v : ReadView). v.i_seq) k.same_view, k.acked, w.acked);
  window = omega (arith, k.window, w.window);
}

pub apply_ack_headers-Keeps : (c : Channel) (pkt : Packet) → Keeps c (apply_ack_headers c pkt).0
unfolding apply_ack_headers
apply_ack_headers-Keeps c pkt = ground arith

pub deliver_ack-Keeps : (c : Channel) → Keeps c (deliver_ack c)
unfolding deliver_ack
deliver_ack-Keeps c = ground arith

pub maybe_deliver_ad_hoc_ack-Keeps : (c : Channel) → Keeps c (maybe_deliver_ad_hoc_ack c)
unfolding maybe_deliver_ad_hoc_ack
maybe_deliver_ad_hoc_ack-Keeps c = ground (arith, deliver_ack-Keeps c, Keeps-refl c)

pub auto_deliver_ack-Keeps : (c : Channel) → Keeps c (auto_deliver_ack c)
unfolding auto_deliver_ack
auto_deliver_ack-Keeps c =
    Keeps-trans (deliver_ack-Keeps c)
      (record { same_view = refl; acked = inl refl; window = omega arith })

-- Writing to a key that is there does not grow the map.
pub length-insert_known :
    (k : ℕ) (v w : WriteBufferEntry) (m : List (ℕ × WriteBufferEntry))
    → lookup k m ≡ some w
    → length (insert k v m) ≡ length m
length-insert_known k v w [] h = cc
length-insert_known k v w ((j, x) ∷ m) h = ground (arith, length-insert_known k v w m)

resend-Keeps :
    (c : Channel) (now : ℕ) (omiss : List ℕ) (seq : ℕ) (e : WriteBufferEntry)
    → lookup seq c.write_buffer ≡ some e
    → Keeps c (resend c now omiss seq e)
unfolding resend
resend-Keeps c now omiss seq e h = record {
  same_view = refl;
  acked = inl refl;
  window = omega (
    arith,
    length-insert_known seq (record e { pkt = with_ack_miss c omiss e.pkt; last_resend = now }) e
        c.write_buffer h,
  );
}

resend_missing-Keeps :
    (c : Channel) (now : ℕ) (omiss : List ℕ) (seq : ℕ) → Keeps c (resend_missing c now omiss seq)
unfolding resend_missing
resend_missing-Keeps c now omiss seq = elim (Option-cases (lookup seq c.write_buffer)) [
  | inl e ↦ rw (e, resend_missing) (Keeps-refl c)
  | inr (e, found) ↦
      rw (found, resend_missing)
        (ground (arith, Keeps-refl c, resend-Keeps c now omiss seq e found))
]

process_missing-Keeps :
    (c : Channel) (now : ℕ) (omiss : List ℕ) (last : ℕ) (miss : List ℕ)
    → Keeps c (process_missing c now omiss last miss)
unfolding process_missing
process_missing-Keeps c now omiss last [] = Keeps-refl c
process_missing-Keeps c now omiss last (d ∷ miss) =
    Keeps-trans (resend_missing-Keeps c now omiss (u32 (last + d)))
      (process_missing-Keeps (resend_missing c now omiss (u32 (last + d))) now omiss _ miss)

pub process_missing_packets-Keeps :
    (c : Channel) (now ack : ℕ) (miss : List ℕ) → Keeps c (process_missing_packets c now ack miss)
unfolding process_missing_packets
process_missing_packets-Keeps c now ack miss =
    process_missing-Keeps c now (build_miss_list c) ack miss

pub resend_last_packet-Keeps : (c : Channel) (now : ℕ) → Keeps c (resend_last_packet c now).0
unfolding resend_last_packet
resend_last_packet-Keeps c now = elim (Option-cases (lookup c.o_seq c.write_buffer)) [
  | inl e ↦ rw (e, resend_last_packet) (ground arith)
  | inr (e, found) ↦
      rw (found, resend_last_packet)
        (ground (
          arith,
          length-insert_known c.o_seq
              (record e { pkt = with_ack_miss c (build_miss_list c) e.pkt; last_resend = now }) e
              c.write_buffer found,
        ))
]

pub resend_delivery-Keeps :
    (c : Channel) (out : Option (Packet × Option ℕ)) → Keeps c (resend_delivery c out)
unfolding resend_delivery
resend_delivery-Keeps c none = Keeps-refl c
resend_delivery-Keeps c (some (pkt, dst)) = ground arith

pub set_close_deadline-Keeps : (c : Channel) → Keeps c (set_close_deadline c)
unfolding set_close_deadline
set_close_deadline-Keeps c = ground arith

pub on_close_deadline_reached-Keeps : (c : Channel) → Keeps c (on_close_deadline_reached c)
unfolding on_close_deadline_reached
on_close_deadline_reached-Keeps c = ground arith

pub on_open_deadline_reached-Keeps : (c : Channel) → Keeps c (on_open_deadline_reached c)
unfolding on_open_deadline_reached
on_open_deadline_reached-Keeps c = ground arith

pub kill-Keeps : (c : Channel) → Keeps c (kill c)
unfolding kill
kill-Keeps c = ground arith

pub signal_if-Keeps : (b : Bool) (v : Cond) (c : Channel) → Keeps c (signal_if b v c)
signal_if-Keeps true v c = ground arith
signal_if-Keeps false v c = Keeps-refl c
