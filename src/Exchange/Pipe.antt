-- ===== src/Exchange/Pipe.antt =====
-- e3x/exchange_pipe.go: a pipe, which dials when it is first written to. A connection is a number; each
-- function is a critical section, so that a call is several steps.
use gogotelehash.Lob.Packet.{Bytes}
use gogotelehash.Prelude.{
  ℕ, ◌≡◌, refl, Bool, true, false, Option, none, some, List, [], ◌∷◌, ◌+◌, ◌-◌, ◌<◌, ◌&&◌, ◌==◌,
  if◌then◌else◌, ap,
}

-- `readers` are the connections of the readers that `wg` waits for; `pending` counts the calls of
-- `dial` that have not yet started their reader.
pub record Pipe : Type 0 where
  pub conn : Option ℕ
  pub closed : Bool
  pub readers : List ℕ
  pub pending : ℕ

-- `newMessage`: three bytes or more that begin as a handshake does.
unfoldable pub is_handshake : Bytes → Bool
is_handshake [] = false
is_handshake (a ∷ []) = false
is_handshake (a ∷ b ∷ []) = false
is_handshake (a ∷ b ∷ c ∷ rest) = a == 0 && b == 1

abbrev pub readers_of : Option ℕ → List ℕ
readers_of none = []
readers_of (some c) = c ∷ []

-- `newPipe`; `none` is a panic.
unfoldable pub new_pipe : Option ℕ → Option Bytes → Option Pipe
new_pipe none none = none
new_pipe none (some addr) = some (record { conn = none; closed = false; readers = []; pending = 0 })
new_pipe (some c) addr =
    some (record { conn = some c; closed = false; readers = c ∷ []; pending = 0 })

-- What `dial` answers.
pub data Dialed : Type 0 where
  goes_on eof dial_error : Dialed
  connected : Option ℕ → Dialed

-- The first critical section of `dial`.
abbrev pub peeked : Bool → Option ℕ → Dialed
peeked true conn = eof
peeked false none = goes_on
peeked false (some c) = connected (some c)

unfoldable pub peek : Pipe → Dialed
peek p = peeked p.closed p.conn

-- The second one, with what dialing gives; a reader is started behind it.
abbrev pub dial_with : Bool → Option ℕ → Option ℕ → Pipe → Pipe × Dialed
dial_with true conn got p = (p, eof)
dial_with false (some c) got p = (p, connected (some c))
dial_with false none none p = (p, dial_error)
dial_with false none (some c) p =
    (record p { conn = some c; pending = p.pending + 1 }, connected (some c))

unfoldable pub dial_locked : Option ℕ → Pipe → Pipe × Dialed
dial_locked got p = dial_with p.closed p.conn got p

-- `go p.reader(p.conn)`, which reads the field again; the flag is false for a reader of a nil
-- connection, which panics.
abbrev pub start_with : Option ℕ → Pipe → Pipe × Bool
start_with none p = (record p { pending = p.pending - 1 }, false)
start_with (some c) p = (record p { pending = p.pending - 1; readers = c ∷ p.readers }, true)

unfoldable pub start_reader : Pipe → Pipe × Bool
start_reader p = start_with p.conn p

-- The locked part of `Close`, with the connection that it closes.
unfoldable pub close_locked : Pipe → Pipe × Option ℕ
close_locked p = (record p { conn = none; closed = true }, p.conn)

abbrev pub without : ℕ → List ℕ → List ℕ
without c [] = []
without c (d ∷ rest) = let later = without c rest in if c == d then rest else d ∷ later

abbrev pub let_go : ℕ → Option ℕ → Option ℕ
let_go c none = none
let_go c (some d) = if d == c then none else some d

-- The end of `reader`.
unfoldable pub end_reader : ℕ → Pipe → Pipe
end_reader c p = record p { conn = let_go c p.conn; readers = without c p.readers }

-- Any critical section, of any call of any goroutine.
pub data Step : Pipe → Pipe → Type 0 where
  dials : (got : Option ℕ) (p : Pipe) → Step p (dial_locked got p).0
  starts : (p : Pipe) → 0 < p.pending → Step p (start_reader p).0
  closes : (p : Pipe) → Step p (close_locked p).0
  ends : (c : ℕ) (p : Pipe) → Step p (end_reader c p)

pub data Steps : Pipe → Pipe → Type 0 where
  no_step : (p : Pipe) → Steps p p
  then_step : (p q r : Pipe) → Steps p q → Step q r → Steps p r

-- A closed pipe has no connection.
abbrev pub IsShut : Pipe → Type 0
IsShut p = (p.closed ≡ true) × (p.conn ≡ none)

Step-IsShut : (p q : Pipe) → Step p q → IsShut p → IsShut q
unfolding dial_locked start_reader close_locked end_reader
Step-IsShut p _ (dials got _) (c, n) = rw (c) (refl, n)
Step-IsShut p _ (starts _ h) (c, n) = rw (n) (c, refl)
Step-IsShut p _ (closes _) (c, n) = (refl, refl)
Step-IsShut p _ (ends d _) (c, n) = (c, rw (n) refl)

Steps-IsShut : (p q : Pipe) → Steps p q → IsShut p → IsShut q
Steps-IsShut p _ (no_step _) s = s
Steps-IsShut p r (then_step _ q _ steps step) s = Step-IsShut q r step (Steps-IsShut p q steps s)

-- Once a pipe is closed it stays closed: whatever the goroutines that use it do after that, in any order
-- and with any result of dialing, both halves of `dial` answer the end of the pipe, and no call of
-- `Close` finds a connection to close.
pub close_locked-Steps :
    (p q : Pipe) (got : Option ℕ)
    → Steps (close_locked p).0 q
    → (peek q ≡ eof) × (dial_locked got q ≡ (q, eof)) × ((close_locked q).1 ≡ none)
unfolding close_locked peek dial_locked
close_locked-Steps p q got steps =
    let (c, n) = Steps-IsShut _ q steps (refl, refl) in (rw (c) refl, rw (c) refl, n)

-- A pipe that was never connected is closed between the locked part of `dial` and the start of its
-- reader: the reader is given no connection, and panics.
start_reader-close_locked :
    (c : ℕ) (p : Pipe)
    → p.closed ≡ false
    → p.conn ≡ none
    → ((dial_locked (some c) p).1 ≡ connected (some c))
      × ((close_locked (dial_locked (some c) p).0).1 ≡ some c)
      × ((start_reader (close_locked (dial_locked (some c) p).0).0).1 ≡ false)
unfolding dial_locked close_locked start_reader
start_reader-close_locked c p open_still none_yet =
    let dialed : dial_locked (some c) p
        ≡ (record p { conn = some c; pending = p.pending + 1 }, connected (some c)) =
      λ i. dial_with (open_still i) (none_yet i) (some c) p in
    (ap (λ (r : Pipe × Dialed). r.1) dialed, ap (λ (r : Pipe × Dialed). r.0.conn) dialed, refl)
