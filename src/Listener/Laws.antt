-- ===== src/Listener/Laws.antt =====
-- e3x/listener.go: the backlog of a listener is a bounded queue, which is emptied when it closes.
use gogotelehash.Listener.{
  Caller, Refusal, Listener, new_listener, bool_eq, handle, Accepts, waits, spins, eof, accepted,
  front, accept_channel, close,
}
use mathlib.Core.List.{append_assoc, append-nil}
use gogotelehash.Prelude.{
  ℕ, ◌+◌, ◌≤◌, ◌<◌, ◌≡◌, refl, ap, Bool, true, not, Option, none, some, List, [], ◌∷◌, ◌++◌, arith,
  if◌then◌else◌, length, All, sym, ◌∙◌, subst, ◌≢◌, ◌↔◌, false, ◌&&◌, ◌||◌, ltb, leb, ◌==◌,
  if_intro, All-append, length-append,
}

-- What has become of the channels so far: those that were queued, those that `AcceptChannel` gave out,
-- and those that `Close` dropped from the queue.
pub record History : Type 0 where
  pub queued : List Caller
  pub given : List Caller
  pub dropped : List Caller

abbrev pub no_history : History
no_history = record { queued = []; given = []; dropped = [] }

abbrev pub note_offer : Caller → Option Refusal → History → History
note_offer c none h = record h { queued = h.queued ++ c ∷ [] }
note_offer c (some r) h = h

-- Any calls, in any order.
pub data Serves (l : Listener) (h : History) : Listener → History → Type 0 where
  start : Serves l h l h
  offers :
      {m : Listener} {g : History} (c : Caller)
      → Serves l h m g
      → Serves l h (handle c m).0 (note_offer c (handle c m).1 g)
  gives :
      {m n : Listener} {g : History} (c : Caller)
      → Serves l h m g
      → accept_channel m ≡ accepted n c
      → Serves l h n (record g { given = g.given ++ c ∷ [] })
  closes :
      {m : Listener} {g : History}
      → Serves l h m g
      → Serves l h (close m).0 (record g { dropped = g.dropped ++ (close m).2 })

-- The queue holds the channels that were queued and not given out, in that order, and its size is
-- counted right and in bounds; a channel of another kind is never in it. An open listener has dropped
-- none of them; one that is closed has dropped just those left in the queue, each once.
pub record IsAccounted (l : Listener) (h : History) : Type 0 where
  pub fifo : h.queued ≡ h.given ++ l.queue
  pub counted : l.backlog_size ≡ length l.queue
  pub bounded : l.backlog_size ≤ l.max_backlog_size
  pub some_room : 0 < l.max_backlog_size
  pub kind : All (λ c. (bool_eq c.reliable l.reliable ≡ true) × (c.typ ≡ l.channel_type)) l.queue
  pub drops : h.dropped ≡ (if l.closed then l.queue else [])

new_listener-IsAccounted :
    (typ : ℕ) (reliable : Bool) (max : ℕ) → IsAccounted (new_listener typ reliable max) no_history
unfolding new_listener
new_listener-IsAccounted typ reliable max = record {
  fifo = refl;
  counted = refl;
  bounded = omega arith;
  some_room = ground arith;
  kind = tt;
  drops = refl;
}

queued_up :
    (c : Caller) (l : Listener) (h : History)
    → IsAccounted l h
    → l.closed ≡ false
    → (ltb 0 l.max_backlog_size && leb l.max_backlog_size l.backlog_size) ≡ false
    → (not (bool_eq c.reliable l.reliable) || not (c.typ == l.channel_type)) ≡ false
    → IsAccounted
        (record l { queue = l.queue ++ c ∷ []; backlog_size = l.backlog_size + 1 })
        (record h { queued = h.queued ++ c ∷ [] })
queued_up c l h w open_yet room fit = record {
  fifo = ap (λ (q : List Caller). q ++ c ∷ []) w.fifo ∙ append_assoc h.given l.queue (c ∷ []);
  counted = omega (arith, w.counted, length-append l.queue (c ∷ []));
  bounded = ground (arith, w.some_room);
  some_room = w.some_room;
  kind = All-append _ l.queue (c ∷ []) w.kind ((ground arith, ground arith), tt);
  drops = w.drops ∙ rw open_yet refl;
}

handle-IsAccounted :
    (c : Caller) (l : Listener) (h : History)
    → IsAccounted l h
    → IsAccounted (handle c l).0 (note_offer c (handle c l).1 h)
unfolding handle
handle-IsAccounted c l h w =
    let P = λ (r : Listener × Option Refusal). IsAccounted r.0 (note_offer c r.1 h) in
    if_intro P l.closed (λ _. w)
      (λ open_yet.
        if_intro P (ltb 0 l.max_backlog_size && leb l.max_backlog_size l.backlog_size) (λ _. w)
          (λ room.
            if_intro P (not (bool_eq c.reliable l.reliable) || not (c.typ == l.channel_type))
              (λ _. w) (λ fit. queued_up c l h w open_yet room fit)))

abbrev Given : History → Accepts → Type 0
Given h (accepted m c) = IsAccounted m (record h { given = h.given ++ c ∷ [] })
Given h waits = Unit
Given h spins = ⊥
Given h eof = Unit

front-Given :
    (q : List Caller) (l : Listener) (h : History)
    → l.queue ≡ q
    → IsAccounted l h
    → l.closed ≡ false
    → (l.backlog_size == 0) ≡ false
    → Given h (front q l)
front-Given [] l h e w open_yet n = ground (arith, w.counted, ap (λ (q : List Caller). length q) e)
front-Given (c ∷ rest) l h e w open_yet n =
    let kind =
      subst (All (λ c. (bool_eq c.reliable l.reliable ≡ true) × (c.typ ≡ l.channel_type))) e
        w.kind in
    record {
      fifo =
          w.fifo
          ∙ ap (λ (q : List Caller). h.given ++ q) e
          ∙ sym (append_assoc h.given (c ∷ []) rest);
      counted = omega (arith, w.counted, ap (λ (q : List Caller). length q) e);
      bounded = omega (arith, w.bounded);
      some_room = w.some_room;
      kind = kind.1;
      drops = w.drops ∙ rw open_yet refl;
    }

accept_channel-Given : (l : Listener) (h : History) → IsAccounted l h → Given h (accept_channel l)
unfolding accept_channel
accept_channel-Given l h w =
    if_intro (Given h) (not l.closed && (l.backlog_size == 0)) (λ _. tt)
      (λ ready.
        if_intro (Given h) l.closed (λ _. tt)
          (λ open_yet. front-Given l.queue l h refl w open_yet (ground arith)))

none_dropped_yet : {d q : List Caller} → d ≡ [] → d ++ q ≡ q
none_dropped_yet {d} {q} h = ap (λ (e : List Caller). e ++ q) h

close-IsAccounted :
    (l : Listener) (h : History)
    → IsAccounted l h
    → IsAccounted (close l).0 (record h { dropped = h.dropped ++ (close l).2 })
unfolding close
close-IsAccounted l h w =
    if_intro
      (λ (r : Listener × Bool × List Caller).
        IsAccounted r.0 (record h { dropped = h.dropped ++ r.2 }))
      l.closed
      (λ _.
        subst (λ (q : List Caller). IsAccounted l (record h { dropped = q }))
          (sym (append-nil h.dropped)) w)
      (λ open_yet. record {
        fifo = w.fifo;
        counted = w.counted;
        bounded = w.bounded;
        some_room = w.some_room;
        kind = w.kind;
        drops = none_dropped_yet (w.drops ∙ rw open_yet refl);
      })

-- Whatever is offered to a new listener, given out by it and however often it is closed: the channels
-- that it queued are those given out, in the order in which they were queued, and behind them those
-- still in the queue, which are of its kind and within its bound; an open listener has dropped none
-- of them, and a closed one has dropped exactly those left in the queue, each once.
pub new_listener-Serves :
    (typ : ℕ) (reliable : Bool) (max : ℕ) {l : Listener} {h : History}
    → Serves (new_listener typ reliable max) no_history l h
    → IsAccounted l h
new_listener-Serves typ reliable max start = new_listener-IsAccounted typ reliable max
new_listener-Serves typ reliable max (offers c r) =
    handle-IsAccounted c _ _ (new_listener-Serves typ reliable max r)
new_listener-Serves typ reliable max (gives {g = g} c r e) =
    subst (Given g) e (accept_channel-Given _ g (new_listener-Serves typ reliable max r))
new_listener-Serves typ reliable max (closes r) =
    close-IsAccounted _ _ (new_listener-Serves typ reliable max r)

-- `AcceptChannel` with its queue apart.
abbrev accept_from : List Caller → Listener → Accepts
accept_from q l =
    if not l.closed && (l.backlog_size == 0) then waits else if l.closed then eof else front q l

accept_from-eof_iff : (q : List Caller) (l : Listener) → (accept_from q l ≡ eof) ↔ (l.closed ≡ true)
accept_from-eof_iff [] l = (λ h. ground arith, λ h. ground arith)
accept_from-eof_iff (c ∷ rest) l = (λ h. ground arith, λ h. ground arith)

accept_from-waits_iff :
    (q : List Caller) (l : Listener)
    → l.backlog_size ≡ length q
    → (accept_from q l ≡ waits) ↔ ((l.closed ≡ false) × (q ≡ []))
accept_from-waits_iff [] l n = (λ h. ground arith, λ h. ground arith)
accept_from-waits_iff (c ∷ rest) l n = (λ h. ground arith, λ h. absurd (cc (h.1)))

-- A call of `AcceptChannel` on such a listener never goes round for ever: it answers EOF just if the
-- listener is closed, and waits just if it is open and its queue is empty.
accept_channel_iff :
    (typ : ℕ) (reliable : Bool) (max : ℕ) {l : Listener} {h : History}
    → Serves (new_listener typ reliable max) no_history l h
    → (accept_channel l ≢ spins)
      × ((accept_channel l ≡ eof) ↔ (l.closed ≡ true))
      × ((accept_channel l ≡ waits) ↔ ((l.closed ≡ false) × (l.queue ≡ [])))
unfolding accept_channel
accept_channel_iff typ reliable max {l} {h} r =
    let w = new_listener-Serves typ reliable max r in
    (
      λ s. subst (Given h) s (accept_channel-Given l h w),
      accept_from-eof_iff l.queue l,
      accept_from-waits_iff l.queue l w.counted,
    )
