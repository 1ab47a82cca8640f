-- ===== src/Listener/Tests.antt =====
-- e3x/listener.go: runs, and the theorems at concrete listeners.
use gogotelehash.Listener.{
  Caller, listener_closed, listener_backlog_too_large, listener_invalid_type, Listener,
  new_listener, handle, Accepts, waits, spins, eof, accepted, accept_channel, close,
}
use gogotelehash.Listener.Registry.{
  ListenerSet, new_listener_set, addr, inherit, drop_target, listen,
}
use gogotelehash.Listener.Laws.{
  no_history, Serves, start, offers, gives, IsAccounted, new_listener-Serves,
}
use gogotelehash.Prelude.{ℕ, ◌≡◌, refl, true, none, some, [], ◌∷◌}

abbrev caller : ℕ → Caller
caller n = record { id = n; typ = 7; reliable = true }

-- A listener that takes one channel at a time.
abbrev narrow : Listener
narrow = new_listener 7 true 1

abbrev filled : Listener
filled = (handle (caller 1) narrow).0

filled_refuses : (handle (caller 2) filled).1 ≡ some listener_backlog_too_large
unfolding handle new_listener
filled_refuses = refl

other_kind :
    (handle (record { id = 3; typ = 8; reliable = true }) narrow).1 ≡ some listener_invalid_type
unfolding handle new_listener
other_kind = refl

abbrev next_of : Accepts → Listener
next_of (accepted l c) = l
next_of waits = narrow
next_of spins = narrow
next_of eof = narrow

filled_gives : accept_channel filled ≡ accepted (next_of (accept_channel filled)) (caller 1)
unfolding accept_channel handle new_listener
filled_gives = refl

served :
    Serves narrow no_history
      (next_of (accept_channel filled))
      (record { queued = caller 1 ∷ []; given = caller 1 ∷ []; dropped = [] })
unfolding handle new_listener
served = gives (caller 1) (offers (caller 1) start) filled_gives

new_listener-Serves_example :
    IsAccounted
      (next_of (accept_channel filled))
      (record { queued = caller 1 ∷ []; given = caller 1 ∷ []; dropped = [] })
new_listener-Serves_example = new_listener-Serves 7 true 1 served

closed_refuses : (handle (caller 2) (close filled).0).1 ≡ some listener_closed
unfolding handle close new_listener
closed_refuses = refl

-- The set of an exchange, whose parent, the endpoint's, has a listener of the same type.
abbrev endpoint_set : ListenerSet
endpoint_set = record { drops = true; addr_func = some 5; listeners = (7, 70) ∷ [] }

abbrev own_set : ListenerSet
own_set = record new_listener_set { listeners = (7, 71) ∷ [] }

own_listens : listen 7 71 new_listener_set ≡ some own_set
unfolding listen
own_listens = refl

twice_panics : listen 7 72 own_set ≡ none
unfolding listen
twice_panics = refl

drops_above : drop_target (inherit (endpoint_set ∷ [])) ≡ some 1
unfolding drop_target inherit
drops_above = refl

addressed_above : addr (inherit (endpoint_set ∷ [])) ≡ some 5
unfolding addr inherit
addressed_above = refl
