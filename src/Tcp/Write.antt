-- ===== src/Tcp/Write.antt =====
-- `HAL_TCP_Write`: a loop of `select` and `send` until all is sent, the time is over, or a call fails.
use clink3_wiki.Prelude.{
  ℕ, ◌+◌, ◌-◌, List, [], ◌∷◌, ◌++◌, Bool, true, false, ◌&&◌, Option, none, some, ltb, leb, ◌==◌,
  if◌then◌else◌, take, drop,
}
use clink3_wiki.Prelude.Int.{ℤ, minus_one, int32}
use clink3_wiki.Tcp.Read.{linux_time_left}

-- What `select` returns: a positive number, with FD_ISSET or without, 0, -1 with EINTR, or -1 with
-- another error
pub data Writable : Type 0 where
  writable : Writable
  not_set : Writable
  select_timed_out : Writable
  interrupted : Writable
  failed : Writable

-- What `send` returns: a positive number, 0, -1 with EINTR, or -1 with another error
pub data Sent : Type 0 where
  accepted : ℕ → Sent
  no_bytes : Sent
  send_interrupted : Sent
  send_failed : Sent

-- The answers to one turn of the loop: the clock, `select`, `send` for the bytes it is given, and
-- the clock at the test of the loop
pub record WriteTurn : Type 0 where
  pub now : ℕ
  pub select : Writable
  pub send : ℕ → Sent
  pub later : ℕ

-- What the function returns, and the bytes that `send` has taken since the process started
abbrev pub Written : Type 0
Written = Option (ℤ × List ℕ)

-- What follows `send`. `again` is the test of the loop and the turns behind it, given whether `ret`
-- is positive, `len_sent`, and the bytes on the way.
unfoldable pub after_send : Sent → List ℕ → ℕ → List ℕ → (Bool → ℕ → List ℕ → Written) → Written
after_send (accepted k) buf len_sent wire again =
    again true (len_sent + k) (wire ++ take k (drop len_sent buf))
after_send no_bytes buf len_sent wire again = again false len_sent wire
after_send send_interrupted buf len_sent wire again = again false len_sent wire
after_send send_failed buf len_sent wire again = some (minus_one, wire)

-- What follows `select`
unfoldable pub after_writable :
    Writable → Sent → List ℕ → ℕ → List ℕ → (Bool → ℕ → List ℕ → Written) → Written
unfolding after_send
after_writable writable sent buf len_sent wire again = after_send sent buf len_sent wire again
after_writable not_set sent buf len_sent wire again = again false len_sent wire
after_writable select_timed_out sent buf len_sent wire again = some (int32 len_sent, wire)
after_writable interrupted sent buf len_sent wire again = again false len_sent wire
after_writable failed sent buf len_sent wire again = some (minus_one, wire)

-- The loop, or `none` while the answers run out before it ends. Without time left `select` is
-- skipped, and `send` is called when `ret` is still positive from before.
unfoldable pub write_loop : List WriteTurn → ℕ → ℕ → List ℕ → Bool → ℕ → List ℕ → Written
unfolding linux_time_left after_writable after_send
write_loop [] t_end len buf positive len_sent wire = none
write_loop (turn ∷ turns) t_end len buf positive len_sent wire =
    let again = λ (p : Bool) (n : ℕ) (w : List ℕ).
      if ltb n len && ltb 0 (linux_time_left t_end turn.later)
      then write_loop turns t_end len buf p n w
      else some (int32 n, w) in
    if linux_time_left t_end turn.now == 0
    then (if positive
        then after_send (turn.send (len - len_sent)) buf len_sent wire again
        else again positive len_sent wire)
    else after_writable turn.select (turn.send (len - len_sent)) buf len_sent wire again

-- `HAL_TCP_Write`, called at the time `start`. `fd_setsize` is FD_SETSIZE.
unfoldable pub tcp_write : ℕ → ℕ → List WriteTurn → ℕ → List ℕ → ℕ → ℕ → List ℕ → Written
unfolding write_loop
tcp_write fd_setsize start turns fd buf len timeout_ms wire =
    if leb fd_setsize fd
    then some (minus_one, wire)
    else write_loop turns (start + timeout_ms) len buf true 0 wire
