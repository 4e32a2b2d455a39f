-- ===== src/Tcp/Delivery.antt =====
-- What `HAL_TCP_Read` leaves in the caller's buffer, and that it ends.
use clink3_wiki.Prelude.{ℕ, ◌+◌, ◌-◌, ◌≤◌, ◌<◌, ◌≡◌, ◌⊎◌, List, [], ◌∷◌, ◌++◌, length}
use clink3_wiki.Prelude.Int.{ℤ, pos, negsuc, minus_one, int32}
use clink3_wiki.Prelude.Buffer.{memcpy}
use clink3_wiki.Tcp.Read.{
  readable, timed_out, select_interrupted, select_failed, data_bytes, closed, recv_interrupted,
  recv_failed, Turn,
}

-- `recv` gives no more bytes than there is room.
abbrev pub IsSocket : Turn → Type 0
IsSocket turn =
    (room : ℕ) (bytes : List ℕ) → turn.recv room ≡ data_bytes bytes → length bytes ≤ room

-- The clock reaches the deadline at one of the turns.
abbrev pub Ends : ℕ → List Turn → Type 0
Ends t_end [] = ⊥
Ends t_end (turn ∷ turns) = (t_end ≤ turn.now) ⊎ Ends t_end turns

-- The codes for a call without bytes: no data in time, closed by the peer, failure
abbrev pub IsReadCode : ℤ → Type 0
IsReadCode code = (code ≡ pos 0) ⊎ (code ≡ minus_one) ⊎ (code ≡ negsuc 1)

-- The course of a read, apart from the buffer: `n` bytes were there before, the turns bring the bytes
-- of the list, and the call ends with the code. `Looks` is the test of the loop in front of the next
-- turn.
mutual
  pub data Course (t_end len : ℕ) : List Turn → ℕ → List ℕ → ℤ → Type 0 where
    out_of_time :
        {turn : Turn} {turns : List Turn} {n : ℕ}
        → t_end ≤ turn.now
        → Course t_end len (turn ∷ turns) n [] (pos 0)
    nothing_came :
        {turn : Turn} {turns : List Turn} {n : ℕ}
        → turn.now < t_end
        → turn.select ≡ timed_out
        → Course t_end len (turn ∷ turns) n [] (pos 0)
    peer_closed :
        {turn : Turn} {turns : List Turn} {n : ℕ}
        → turn.now < t_end
        → turn.select ≡ readable
        → turn.recv (len - n) ≡ closed
        → Course t_end len (turn ∷ turns) n [] minus_one
    recv_breaks :
        {turn : Turn} {turns : List Turn} {n : ℕ}
        → turn.now < t_end
        → turn.select ≡ readable
        → turn.recv (len - n) ≡ recv_failed
        → Course t_end len (turn ∷ turns) n [] (negsuc 1)
    select_breaks :
        {turn : Turn} {turns : List Turn} {n : ℕ}
        → turn.now < t_end
        → turn.select ≡ select_failed
        → Course t_end len (turn ∷ turns) n [] (negsuc 1)
    bytes_came :
        {turn : Turn} {turns : List Turn} {n : ℕ} {first rest : List ℕ} {code : ℤ}
        → turn.now < t_end
        → turn.select ≡ readable
        → turn.recv (len - n) ≡ data_bytes first
        → Looks t_end len turns (n + length first) rest code
        → Course t_end len (turn ∷ turns) n (first ++ rest) code
    recv_again :
        {turn : Turn} {turns : List Turn} {n : ℕ} {bytes : List ℕ} {code : ℤ}
        → turn.now < t_end
        → turn.select ≡ readable
        → turn.recv (len - n) ≡ recv_interrupted
        → Looks t_end len turns n bytes code
        → Course t_end len (turn ∷ turns) n bytes code
    select_again :
        {turn : Turn} {turns : List Turn} {n : ℕ} {bytes : List ℕ} {code : ℤ}
        → turn.now < t_end
        → turn.select ≡ select_interrupted
        → Looks t_end len turns n bytes code
        → Course t_end len (turn ∷ turns) n bytes code

  pub data Looks (t_end len : ℕ) : List Turn → ℕ → List ℕ → ℤ → Type 0 where
    has_all : {turns : List Turn} {n : ℕ} → len ≤ n → Looks t_end len turns n [] (pos 0)
    wants_more :
        {turns : List Turn} {n : ℕ} {bytes : List ℕ} {code : ℤ}
        → n < len
        → Course t_end len turns n bytes code
        → Looks t_end len turns n bytes code

-- The number of bytes as an `int32_t`, or the code when there is none
abbrev pub IsReadResult : ℕ → ℤ → ℤ → Type 0
IsReadResult n code r = ((n ≡ 0) × (r ≡ code)) ⊎ ((0 < n) × (r ≡ int32 n))

-- The bytes of the course, and no others, are in the buffer from `start` on and within `len`; the result
-- is the number of all bytes, or the code of the course where there are none.
pub record Delivered (P : List ℕ → ℤ → Type 0) (len start : ℕ) (buf : List ℕ) (r : ℤ × List ℕ)
    : Type 0 where
  pub bytes : List ℕ
  pub code : ℤ
  pub course : P bytes code
  pub within : start + length bytes ≤ len
  pub is_code : IsReadCode code
  pub result : IsReadResult (start + length bytes) code r.0
  pub buffer : r.1 ≡ memcpy buf start bytes
