-- ===== src/Channel/Deadlines.antt =====
-- e3x/channel.go: the timers, their callbacks, `Kill`, and the deadlines of `net.Conn`.
use gogotelehash.Prelude.{ℕ, ◌-◌, Bool, true, false, ◌∷◌, if◌then◌else◌, ◌==◌, ltb}
use gogotelehash.Channel.Types.{
  Channel, read, write, close, broadcast, closed, emit, Timer, running, stop,
}

-- `unsetTimers`: every timer that is not nil is stopped.
unfoldable pub unset_timers : Channel → Channel
unset_timers c = record c {
  t_open_deadline = stop c.t_open_deadline;
  t_close_deadline = stop c.t_close_deadline;
  t_read_deadline = stop c.t_read_deadline;
  t_write_deadline = stop c.t_write_deadline;
  t_resend = stop c.t_resend;
  t_acker = stop c.t_acker;
}

-- The three broadcasts.
abbrev pub wake_all : Channel → Channel
wake_all c = record c { log = broadcast close ∷ broadcast read ∷ broadcast write ∷ c.log }

unfoldable pub on_close_deadline_reached : Channel → Channel
on_close_deadline_reached c =
    if c.broken
    then c
    else emit closed (
        wake_all (record c {
          broken = true;
          close_deadline_reached = true;
          t_open_deadline = stop c.t_open_deadline;
          t_close_deadline = stop c.t_close_deadline;
          t_resend = stop c.t_resend;
        }))

unfoldable pub on_open_deadline_reached : Channel → Channel
unfolding unset_timers
on_open_deadline_reached c =
    if c.broken
    then c
    else emit closed
        (wake_all (unset_timers (record c { broken = true; open_deadline_reached = true })))

unfoldable pub kill : Channel → Channel
unfolding unset_timers
kill c =
    if c.broken
    then c
    else emit closed
        (wake_all (unset_timers (record c { broken = true; open_deadline_reached = false })))

-- What a deadline at `d` does to its timer and its flag: the zero time clears it, a time in the
-- past sets the flag, and a later one starts the timer.
abbrev pub deadline_timer : ℕ → ℕ → Timer → Timer
deadline_timer now d t = if d == 0 then stop t else if ltb d now then stop t else running (d - now)

abbrev pub deadline_flag : ℕ → ℕ → Bool
deadline_flag now d = if d == 0 then false else if ltb d now then true else false

unfoldable pub set_deadline : ℕ → ℕ → Channel → Channel
set_deadline now d c = record c {
  t_read_deadline = deadline_timer now d c.t_read_deadline;
  read_deadline_reached = deadline_flag now d;
  t_write_deadline = deadline_timer now d c.t_write_deadline;
  write_deadline_reached = deadline_flag now d;
  log = broadcast write ∷ broadcast read ∷ broadcast close ∷ c.log;
}

unfoldable pub set_read_deadline : ℕ → ℕ → Channel → Channel
set_read_deadline now d c = record c {
  t_read_deadline = deadline_timer now d c.t_read_deadline;
  read_deadline_reached = deadline_flag now d;
  log = broadcast read ∷ broadcast close ∷ c.log;
}

unfoldable pub set_write_deadline : ℕ → ℕ → Channel → Channel
set_write_deadline now d c = record c {
  t_write_deadline = deadline_timer now d c.t_write_deadline;
  write_deadline_reached = deadline_flag now d;
  log = broadcast write ∷ broadcast close ∷ c.log;
}

unfoldable pub on_read_deadline_reached : Channel → Channel
on_read_deadline_reached c = record c {
  read_deadline_reached = true;
  log = broadcast read ∷ broadcast close ∷ c.log;
}

unfoldable pub on_write_deadline_reached : Channel → Channel
on_write_deadline_reached c = record c {
  write_deadline_reached = true;
  log = broadcast write ∷ broadcast close ∷ c.log;
}
