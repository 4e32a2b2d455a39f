-- ===== src/Tcp/Sending.antt =====
-- What `HAL_TCP_Write` has sent when it returns, and that it returns.
use clink3_wiki.Prelude.{
  ℕ, ◌+◌, ◌-◌, ◌≤◌, ◌<◌, ◌≡◌, ◌⊎◌, List, [], ◌∷◌, ◌++◌, Bool, true, false, if◌then◌else◌, take,
}
use clink3_wiki.Prelude.Int.{ℤ, minus_one, int32}
use clink3_wiki.Tcp.Write.{
  writable, not_set, select_timed_out, interrupted, failed, accepted, no_bytes, send_interrupted,
  send_failed, WriteTurn,
}

-- `send` takes no more bytes than it is given.
abbrev pub IsSender : WriteTurn → Type 0
IsSender turn = (room k : ℕ) → turn.send room ≡ accepted k → k ≤ room

-- The clock reaches the deadline at the test of one of the turns.
abbrev pub EndsLater : ℕ → List WriteTurn → Type 0
EndsLater t_end [] = ⊥
EndsLater t_end (turn ∷ turns) = (t_end ≤ turn.later) ⊎ EndsLater t_end turns

-- In a turn `send` is called: `select` allows it in time, or the time is over and `ret` is still
-- positive. Or the turn passes without it.
pub data Tries (t_end : ℕ) (turn : WriteTurn) : Bool → Type 0 where
  in_time :
      {positive : Bool} → turn.now < t_end → turn.select ≡ writable → Tries t_end turn positive
  still_positive : t_end ≤ turn.now → Tries t_end turn true

pub data Passes (t_end : ℕ) (turn : WriteTurn) : Bool → Type 0 where
  not_ready :
      {positive : Bool} → turn.now < t_end → turn.select ≡ not_set → Passes t_end turn positive
  select_again :
      {positive : Bool} → turn.now < t_end → turn.select ≡ interrupted → Passes t_end turn positive
  not_positive : t_end ≤ turn.now → Passes t_end turn false

-- The course of a write, apart from the bytes: from `n` bytes sent before, with `ret` positive or not, to
-- the number at the end, and whether no call has failed. `Tests` is the test of the loop behind a turn.
mutual
  pub data Course (t_end len : ℕ) : List WriteTurn → Bool → ℕ → ℕ → Bool → Type 0 where
    time_over :
        {turn : WriteTurn} {turns : List WriteTurn} {positive : Bool} {n : ℕ}
        → turn.now < t_end
        → turn.select ≡ select_timed_out
        → Course t_end len (turn ∷ turns) positive n n true
    select_breaks :
        {turn : WriteTurn} {turns : List WriteTurn} {positive : Bool} {n : ℕ}
        → turn.now < t_end
        → turn.select ≡ failed
        → Course t_end len (turn ∷ turns) positive n n false
    passes :
        {turn : WriteTurn} {turns : List WriteTurn} {positive : Bool} {n total : ℕ} {ok : Bool}
        → Passes t_end turn positive
        → Tests t_end len turn turns false n total ok
        → Course t_end len (turn ∷ turns) positive n total ok
    sends :
        {turn : WriteTurn} {turns : List WriteTurn} {positive : Bool} {n total : ℕ} {ok : Bool}
        (k : ℕ)
        → Tries t_end turn positive
        → turn.send (len - n) ≡ accepted k
        → Tests t_end len turn turns true (n + k) total ok
        → Course t_end len (turn ∷ turns) positive n total ok
    sends_nothing :
        {turn : WriteTurn} {turns : List WriteTurn} {positive : Bool} {n total : ℕ} {ok : Bool}
        → Tries t_end turn positive
        → (turn.send (len - n) ≡ no_bytes) ⊎ (turn.send (len - n) ≡ send_interrupted)
        → Tests t_end len turn turns false n total ok
        → Course t_end len (turn ∷ turns) positive n total ok
    send_breaks :
        {turn : WriteTurn} {turns : List WriteTurn} {positive : Bool} {n : ℕ}
        → Tries t_end turn positive
        → turn.send (len - n) ≡ send_failed
        → Course t_end len (turn ∷ turns) positive n n false

  pub data Tests (t_end len : ℕ) : WriteTurn → List WriteTurn → Bool → ℕ → ℕ → Bool → Type 0 where
    finished :
        {turn : WriteTurn} {turns : List WriteTurn} {positive : Bool} {n : ℕ}
        → (len ≤ n) ⊎ (t_end ≤ turn.later)
        → Tests t_end len turn turns positive n n true
    goes_on :
        {turn : WriteTurn} {turns : List WriteTurn} {positive : Bool} {n total : ℕ} {ok : Bool}
        → n < len
        → turn.later < t_end
        → Course t_end len turns positive n total ok
        → Tests t_end len turn turns positive n total ok

-- `sent` bytes from the start of the buffer, those of the course, have gone out behind `wire`; the result
-- is their number as an `int32_t` when no call has failed, and else -1.
pub record Prefix (P : ℕ → Bool → Type 0) (len : ℕ) (buf wire : List ℕ) (r : ℤ × List ℕ)
    : Type 0 where
  pub sent : ℕ
  pub ok : Bool
  pub course : P sent ok
  pub within : sent ≤ len
  pub result : r.0 ≡ (if ok then int32 sent else minus_one)
  pub on_wire : r.1 ≡ wire ++ take sent buf
