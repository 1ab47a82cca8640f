-- ===== src/Exchange/Laws.antt =====
-- e3x/exchange.go: the numbers that an exchange gives out.
use gogotelehash.Exchange.{Exchange, is_local_seq, get_next_channel_id, right_parity, not_zero}
use gogotelehash.Prelude.{ℕ, ◌≡◌, arith, ◌+◌, ◌%◌, ◌^◌, ◌≤◌, ◌<◌, ◌≢◌, true, false, ◌⊎◌}

-- The numbers of an exchange and the time are four below the end of uint32.
pub record HasRoom (now : ℕ) (x : Exchange) : Type 0 where
  pub time : now + 4 < 2 ^ 32
  pub local_seq : x.last_local_seq + 4 < 2 ^ 32
  pub remote_seq : x.last_remote_seq + 4 < 2 ^ 32
  pub next : x.next_seq + 4 < 2 ^ 32

-- A number that is given out.
pub record IsFresh (x y : Exchange) (seq : ℕ) (now : ℕ) : Type 0 where
  pub own : is_local_seq x seq ≡ true
  pub positive : 0 < seq
  pub above_next : x.next_seq ≤ seq
  pub above_time : now ≤ seq
  pub above_local :
      (x.last_local_seq < seq) ⊎ ((x.last_local_seq ≡ seq) × ((seq ≡ x.next_seq) ⊎ (seq ≡ now)))
  pub above_remote :
      (x.last_remote_seq < seq)
      ⊎ ((x.last_remote_seq ≡ seq) × (is_local_seq x x.last_remote_seq ≡ true))
  pub next : y.next_seq ≡ seq + 2

right_parity-odd : (n : ℕ) → right_parity true n % 2 ≡ 1
right_parity-odd n = ground arith

right_parity-even :
    (n : ℕ)
    → n % 2 ≡ 0
    → n < 2 ^ 32
    → (right_parity false (not_zero n) % 2 ≡ 0) × (0 < right_parity false (not_zero n))
right_parity-even n e b = ground arith

-- The number of a new channel is never zero, and the two sides of an exchange, one of which is high,
-- never give out the same one, whatever numbers they noted, also past the wrap at 2^32; the number
-- that the low side notes has to be even, as it is at first, and stays even.
pub get_next_channel_id_lem :
    (x y : Exchange)
    → x.next_channel_id < 2 ^ 32
    → y.next_channel_id < 2 ^ 32
    → y.next_channel_id % 2 ≡ 0
    → x.high ≡ true
    → y.high ≡ false
    → ((get_next_channel_id x).1 ≢ (get_next_channel_id y).1)
      × ((get_next_channel_id x).1 ≢ 0)
      × ((get_next_channel_id y).1 ≢ 0)
      × ((get_next_channel_id y).0.next_channel_id % 2 ≡ 0)
unfolding get_next_channel_id
get_next_channel_id_lem x y bx by even hx hy =
    let odd = right_parity-odd (not_zero x.next_channel_id) in
    let (low, positive) = right_parity-even y.next_channel_id even by in
    rw (hx, hy)
      (
        λ e. omega (arith, odd, low, e),
        λ e. omega (arith, odd, e),
        λ e. omega (arith, positive, e),
        omega (arith, low),
      )
