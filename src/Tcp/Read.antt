-- ===== src/Tcp/Read.antt =====
-- `_linux_time_left` and `HAL_TCP_Read`: a loop of `select` and `recv` until the buffer is full, the
-- time is over, or the connection ends.
use clink3_wiki.Prelude.{
  ℕ, ◌+◌, ◌-◌, List, [], ◌∷◌, Option, none, some, ltb, leb, ◌==◌, if◌then◌else◌, length,
}
use clink3_wiki.Prelude.Int.{ℤ, pos, negsuc, minus_one, int32}
use clink3_wiki.Prelude.Buffer.{memcpy}

unfoldable pub linux_time_left : ℕ → ℕ → ℕ
linux_time_left t_end t_now = if ltb t_now t_end then t_end - t_now else 0

-- What `select` returns: a positive number, 0, -1 with EINTR, or -1 with another error
pub data Selected : Type 0 where
  readable : Selected
  timed_out : Selected
  select_interrupted : Selected
  select_failed : Selected

-- What `recv` returns: bytes, 0, -1 with EINTR, or -1 with another error
pub data Received : Type 0 where
  data_bytes : List ℕ → Received
  closed : Received
  recv_interrupted : Received
  recv_failed : Received

-- The answers to one turn of the loop: the clock, `select`, and `recv` for the room it is given
pub record Turn : Type 0 where
  pub now : ℕ
  pub select : Selected
  pub recv : ℕ → Received

-- `(0 != len_recv) ? len_recv : err_code`, as an `int32_t`
abbrev pub read_result : ℕ → ℤ → ℤ
read_result len_recv err_code = if len_recv == 0 then err_code else int32 len_recv

-- What follows `recv`. `again` is the test of the loop and the turns behind it, for a buffer and
-- its `len_recv`; `continue` goes there.
unfoldable pub after_recv :
    Received → List ℕ → ℕ → (List ℕ → ℕ → Option (ℤ × List ℕ)) → Option (ℤ × List ℕ)
after_recv (data_bytes bytes) buf len_recv again =
    again (memcpy buf len_recv bytes) (len_recv + length bytes)
after_recv closed buf len_recv again = some (read_result len_recv minus_one, buf)
after_recv recv_interrupted buf len_recv again = again buf len_recv
after_recv recv_failed buf len_recv again = some (read_result len_recv (negsuc 1), buf)

-- What follows `select`
unfoldable pub after_select :
    Selected → Received → List ℕ → ℕ → (List ℕ → ℕ → Option (ℤ × List ℕ)) → Option (ℤ × List ℕ)
unfolding after_recv
after_select readable got buf len_recv again = after_recv got buf len_recv again
after_select timed_out got buf len_recv again = some (read_result len_recv (pos 0), buf)
after_select select_interrupted got buf len_recv again = again buf len_recv
after_select select_failed got buf len_recv again = some (read_result len_recv (negsuc 1), buf)

-- What the loop returns and the buffer behind it, or `none` while the answers run out before it
-- ends
unfoldable pub read_loop : List Turn → ℕ → ℕ → List ℕ → ℕ → Option (ℤ × List ℕ)
unfolding linux_time_left after_select
read_loop [] t_end len buf len_recv = none
read_loop (turn ∷ turns) t_end len buf len_recv =
    let again = λ (b : List ℕ) (n : ℕ).
      if ltb n len then read_loop turns t_end len b n else some (read_result n (pos 0), b) in
    if linux_time_left t_end turn.now == 0
    then some (read_result len_recv (pos 0), buf)
    else after_select turn.select (turn.recv (len - len_recv)) buf len_recv again

-- `HAL_TCP_Read`, called at the time `start`. `fd_setsize` is FD_SETSIZE.
unfoldable pub tcp_read : ℕ → ℕ → List Turn → ℕ → List ℕ → ℕ → ℕ → Option (ℤ × List ℕ)
unfolding read_loop
tcp_read fd_setsize start turns fd buf len timeout_ms =
    if leb fd_setsize fd
    then some (minus_one, buf)
    else read_loop turns (start + timeout_ms) len buf 0
