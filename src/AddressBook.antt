-- ===== src/AddressBook.antt =====
-- e3x/exchange_address_book.go: the paths to a peer. A pipe stands for its pointer, a number, and an
-- address for itself; an entry is known by its pipe, which never changes, so that `active` is the pipe
-- of the entry that it points to. A function is a critical section under `book.mtx`; times are
-- nanoseconds, the zero `Time` is 0.
pub mod Sorting
pub mod Epoch
pub mod Invariant
pub mod Broken
pub mod Tests
use gogotelehash.Channel.Types.{second}
use gogotelehash.Lob.Packet.{ℤ, pos, negsuc}
use gogotelehash.Prelude.{
  ℕ, Bool, true, false, not, Option, none, some, List, [], ◌∷◌, ◌++◌, map, ltb, leb, length, take,
  if◌then◌else◌, ◌==◌, ◌+◌, ◌-◌, ◌&&◌, zero, suc, ◌*◌, ◌/◌, ◌<◌, ap,
}

-- `cMaxAddressBookEntries`, `cNumBackupAddresses`
abbrev pub max_entries : ℕ
max_entries = 16

abbrev pub num_backups : ℕ
num_backups = 3

pub record Entry : Type 0 where
  pub pipe : ℕ
  pub address : ℕ
  pub sent_at : ℕ
  pub received_at : ℕ
  pub added : ℕ
  pub expire_at : ℕ
  pub reachable : Bool
  pub is_backup : Bool
  pub latency : ℤ
  pub ewma : ℤ

pub record AddressBook : Type 0 where
  pub active : Option ℕ
  pub known : List Entry

abbrev pub new_address_book : AddressBook
new_address_book = record { active = none; known = [] }

-- `t.Sub(u)`, and `<` on durations.
abbrev pub time_sub : ℕ → ℕ → ℤ
time_sub t u = if leb u t then pos (t - u) else negsuc (u - t - 1)

abbrev pub less_duration : ℤ → ℤ → Bool
less_duration (pos a) (pos b) = ltb a b
less_duration (pos a) (negsuc b) = false
less_duration (negsuc a) (pos b) = true
less_duration (negsuc a) (negsuc b) = ltb b a

-- 125 milliseconds, and two minutes.
abbrev pub first_sample : ℤ
first_sample = pos (second / 8)

abbrev pub path_lifetime : ℕ
path_lifetime = 120 * second

-- `sortedAddressBookEntries.Less`
unfoldable pub less : Entry → Entry → Bool
less a b =
    if a.reachable && not b.reachable
    then true
    else if not a.reachable && b.reachable
    then false
    else less_duration a.ewma b.ewma

unfoldable pub init_samples : Entry → Entry
init_samples e = record e { latency = first_sample; ewma = first_sample }

-- `-1` is `none`; else the index moves by one for each entry before.
abbrev pub one_later : Option ℕ → Option ℕ
one_later none = none
one_later (some i) = some (suc i)

unfoldable pub index_of_pipe : ℕ → List Entry → Option ℕ
index_of_pipe p [] = none
index_of_pipe p (e ∷ rest) = if e.pipe == p then some 0 else one_later (index_of_pipe p rest)

-- `book.known[i]`, and a change of the entry that it points to.
abbrev pub entry_at : ℕ → List Entry → Option Entry
entry_at i [] = none
entry_at zero (e ∷ rest) = some e
entry_at (suc i) (e ∷ rest) = entry_at i rest

abbrev pub change_at : ℕ → (Entry → Entry) → List Entry → List Entry
change_at i f [] = []
change_at zero f (e ∷ rest) = f e ∷ rest
change_at (suc i) f (e ∷ rest) = e ∷ change_at i f rest

unfoldable pub active_connection : AddressBook → Option ℕ
active_connection book = book.active

unfoldable pub known_addresses : AddressBook → List ℕ
known_addresses book = map (λ (e : Entry). e.address) book.known

unfoldable pub known_pipes : AddressBook → List ℕ
known_pipes book = map (λ (e : Entry). e.pipe) book.known

abbrev pub backup_pipes : List Entry → List ℕ
backup_pipes [] = []
backup_pipes (e ∷ rest) = let s = backup_pipes rest in if not e.is_backup then s else e.pipe ∷ s

unfoldable pub handshake_pipes : AddressBook → List ℕ
handshake_pipes book = backup_pipes book.known

abbrev pub pipe_of : Option Entry → Option ℕ
pipe_of none = none
pipe_of (some e) = some e.pipe

-- `indexOf` compares by `transports.EqualAddr`.
module _ (equal_addr : ℕ → ℕ → Bool) where
  unfoldable pub index_of_addr : ℕ → List Entry → Option ℕ
  index_of_addr a [] = none
  index_of_addr a (e ∷ rest) =
      if equal_addr e.address a then some 0 else one_later (index_of_addr a rest)

  abbrev pub pipe_at : Option ℕ → List Entry → Option ℕ
  pipe_at none known = none
  pipe_at (some i) known = pipe_of (entry_at i known)

  unfoldable pub pipe_to_addr : ℕ → AddressBook → Option ℕ
  unfolding index_of_addr
  pipe_to_addr a book = pipe_at (index_of_addr a book.known) book.known

abbrev pub new_entry : ℕ → ℕ → ℕ → Entry
new_entry now p addr = init_samples (record {
  pipe = p;
  address = addr;
  sent_at = 0;
  received_at = 0;
  added = now;
  expire_at = now + path_lifetime;
  reachable = true;
  is_backup = true;
  latency = pos 0;
  ewma = pos 0;
})

-- `if book.active == nil { book.active = e }`
abbrev pub or_active : Option ℕ → ℕ → Option ℕ
or_active none p = some p
or_active (some q) p = some q

abbrev pub added_pipe : Option ℕ → ℕ → ℕ → ℕ → AddressBook → AddressBook
added_pipe (some i) now p addr book = book
added_pipe none now p addr book = record {
  active = or_active book.active p;
  known = book.known ++ new_entry now p addr ∷ [];
}

unfoldable pub add_pipe : ℕ → ℕ → ℕ → AddressBook → AddressBook
unfolding index_of_pipe init_samples
add_pipe now p addr book = added_pipe (index_of_pipe p book.known) now p addr book

abbrev pub sent_to : Option ℕ → ℕ → AddressBook → AddressBook
sent_to none now book = book
sent_to (some i) now book = record book {
  known = change_at i (λ e. record e { sent_at = now }) book.known;
}

unfoldable pub sent_handshake : ℕ → ℕ → AddressBook → AddressBook
unfolding index_of_pipe
sent_handshake now p book = sent_to (index_of_pipe p book.known) now book

unfoldable pub note_received : ℕ → Entry → Entry
note_received now e = if not (e.sent_at == 0) then record e { received_at = now } else e

-- For an unknown pipe the call runs `AddPipe` while it holds the lock that `AddPipe` takes: it never
-- returns, which is `none`.
abbrev pub received_from : Option ℕ → ℕ → AddressBook → Option AddressBook
received_from none now book = none
received_from (some i) now book =
    some (record book { known = change_at i (note_received now) book.known })

unfoldable pub received_handshake : ℕ → ℕ → AddressBook → Option AddressBook
unfolding index_of_pipe note_received
received_handshake now p book = received_from (index_of_pipe p book.known) now book

-- The loop over the entries that marks the backups, from index `i` on.
unfoldable pub mark_backups : ℕ → List Entry → List Entry
mark_backups i [] = []
mark_backups i (e ∷ rest) =
    record e { is_backup = e.reachable && ltb i num_backups } ∷ mark_backups (suc i) rest

abbrev pub first_reachable : List Entry → Option ℕ
first_reachable [] = none
first_reachable (e ∷ rest) = if e.reachable then some e.pipe else none

-- `blend d w` is ewma_α*d + (1.0-ewma_α)*w in float64, converted back; `sort` is `sort.Sort` by `less`,
-- which is not stable.
module _ (blend : ℤ → ℤ → ℤ) where
  unfoldable pub add_latency_sample : ℤ → Entry → Entry
  add_latency_sample d e = record e { latency = d; ewma = blend d e.ewma }

  -- The body of the first loop up to `// reset`.
  unfoldable pub judge : ℕ → Entry → Entry
  unfolding add_latency_sample
  judge now e =
      if e.sent_at == 0
      then e
      else if not (e.received_at == 0)
      then record (add_latency_sample (time_sub e.received_at e.sent_at) e) {
        expire_at = e.received_at + path_lifetime;
        reachable = true;
      }
      else if ltb e.expire_at now
      then record e { reachable = false; latency = first_sample; ewma = first_sample }
      else add_latency_sample (time_sub now e.sent_at) e

  unfoldable pub refresh : ℕ → Entry → Entry
  unfolding judge
  refresh now e = record (judge now e) { sent_at = 0; received_at = 0 }

  module _ (sort : List Entry → List Entry) where
    -- From `// trim` on.
    unfoldable pub settle : List Entry → AddressBook
    unfolding mark_backups
    settle sorted =
        let kept = take max_entries sorted in
        record { active = first_reachable kept; known = mark_backups 0 kept }

    unfoldable pub next_handshake_epoch : ℕ → AddressBook → AddressBook
    unfolding settle refresh
    next_handshake_epoch now book =
        if length book.known == 0
        then record book { active = none }
        else settle (sort (map (refresh now) book.known))

-- exchange.go, `deliverHandshake`: an epoch, then a handshake to each backup, noted where the write
-- succeeds. `generated` is whether the handshake could be made, `wrote p` how the write to `p` ends,
-- and `at p` the time behind it.
unfoldable pub send_each : (ℕ → ℕ) → (ℕ → Bool) → List ℕ → AddressBook → AddressBook
send_each at wrote [] book = book
send_each at wrote (p ∷ rest) book =
    send_each at wrote rest (if wrote p then sent_handshake (at p) p book else book)

module _ (blend : ℤ → ℤ → ℤ) (sort : List Entry → List Entry) where
  unfoldable pub deliver_handshakes : ℕ → Bool → (ℕ → ℕ) → (ℕ → Bool) → AddressBook → AddressBook
  unfolding next_handshake_epoch
  deliver_handshakes now generated at wrote book =
      let b = next_handshake_epoch blend sort now book in
      if generated then send_each at wrote (handshake_pipes b) b else b

-- exchange.go, `AddPathCandidate` and `AddPipeConnection`: `p` is the pipe that is made if the address
-- has none. The pipe of a connection has the connection's own address, `remote`, whatever address was
-- given.
abbrev pub or_remote : Option ℕ → ℕ → ℕ
or_remote none remote = remote
or_remote (some a) remote = a

abbrev pub candidate : Option ℕ → ℕ → ℕ → ℕ → AddressBook → AddressBook
candidate none now p addr book = add_pipe now p addr book
candidate (some q) now p addr book = book

abbrev pub connected : Option ℕ → ℕ → ℕ → ℕ → AddressBook → AddressBook × ℕ × Bool
connected none now p remote book = (add_pipe now p remote book, p, true)
connected (some q) now p remote book = (book, q, false)

module _ (equal_addr : ℕ → ℕ → Bool) where
  unfoldable pub add_path_candidate : ℕ → ℕ → ℕ → AddressBook → AddressBook
  unfolding pipe_to_addr add_pipe
  add_path_candidate now p addr book = candidate (pipe_to_addr equal_addr addr book) now p addr book

  unfoldable pub add_pipe_connection : ℕ → ℕ → Option ℕ → ℕ → AddressBook → AddressBook × ℕ × Bool
  unfolding pipe_to_addr add_pipe
  add_pipe_connection now p addr remote book =
      connected (pipe_to_addr equal_addr (or_remote addr remote) book) now p remote book
