-- ===== src/Os/Deadlines.antt =====
-- What `HAL_SemaphoreWait` waits for, and what its result says.
use clink3_wiki.Prelude.{
  ℕ, ◌≢◌, ◌==◌, ◌+◌, ◌*◌, ◌%◌, ◌≤◌, ◌<◌, ◌≡◌, ◌⊎◌, inl, inr, refl, List, [], ◌∷◌, Option, none,
  some, leb, Bool-cases, Option-cases, Returns, arith, All, subst, sym,
}
use clink3_wiki.Prelude.Int.{ℤ, pos, minus_one}
use clink3_wiki.Os.Timing.{
  Timespec, deadline, Wait, signaled, interrupted, expired, Attempt, with_deadline, after_wait,
  timed_wait, semaphore_wait,
}

-- A `struct timespec` that the system accepts
abbrev pub IsTime : Timespec → Type 0
IsTime ts = ts.tv_nsec < 1000000000

-- The nanoseconds
abbrev pub nanoseconds : Timespec → ℕ
nanoseconds ts = ts.tv_sec * 1000000000 + ts.tv_nsec

-- The deadline lies the whole timeout behind the clock, and the system accepts it.
deadline_lem :
    (ts : Timespec) (timeout_ms : ℕ)
    → IsTime ts
    → IsTime (deadline ts timeout_ms)
      × (nanoseconds (deadline ts timeout_ms) ≡ nanoseconds ts + timeout_ms * 1000000)
unfolding deadline
deadline_lem ts timeout_ms h =
    elim (Bool-cases (leb 1000000000 (ts.tv_nsec + timeout_ms % 1000 * 1000000))) [
      | inl over ↦
          let more : 1000000000 ≤ ts.tv_nsec + timeout_ms % 1000 * 1000000 = ground (arith, over) in
          rw over (omega (arith, h, more), omega (arith, more))
      | inr within ↦
          let less : ts.tv_nsec + timeout_ms % 1000 * 1000000 < 1000000000 =
            ground (arith, within) in
          rw within (less, omega arith)
    ]

-- The clock gives times that the system accepts.
abbrev pub HasClock : Attempt → Type 0
HasClock attempt = (ts : Timespec) → attempt.now ≡ some ts → IsTime ts

-- One of the waits is not interrupted.
abbrev pub Decides : ℕ → List Attempt → Type 0
Decides timeout_ms [] = ⊥
Decides timeout_ms (attempt ∷ attempts) =
    ((ts : Timespec)
      → attempt.now ≡ some ts
      → ¬ (attempt.wait (deadline ts timeout_ms) ≡ interrupted))
    ⊎ Decides timeout_ms attempts

-- Each deadline is acceptable and lies the timeout behind the clock of its own attempt.
abbrev pub Timely : ℕ → List Attempt → List Timespec → Type 0
Timely timeout_ms attempts [] = Unit
Timely timeout_ms [] (d ∷ deadlines) = ⊥
Timely timeout_ms (attempt ∷ attempts) (d ∷ deadlines) =
    ((ts : Timespec) × (attempt.now ≡ some ts)
      × IsTime d
      × (nanoseconds d ≡ nanoseconds ts + timeout_ms * 1000000))
    × Timely timeout_ms attempts deadlines

-- A signal comes, behind interrupted waits only.
abbrev pub Woken : ℕ → List Attempt → Type 0
Woken timeout_ms [] = ⊥
Woken timeout_ms (attempt ∷ attempts) =
    (ts : Timespec) × (attempt.now ≡ some ts)
    × ((attempt.wait (deadline ts timeout_ms) ≡ signaled)
        ⊎ ((attempt.wait (deadline ts timeout_ms) ≡ interrupted) × Woken timeout_ms attempts))

-- 0 for a signal and -1 without one, with the deadlines in order
abbrev pub Waited : ℕ → List Attempt → ℤ × List Timespec → Type 0
Waited timeout_ms attempts r =
    Timely timeout_ms attempts r.1
    × (((r.0 ≡ pos 0) × Woken timeout_ms attempts)
        ⊎ ((r.0 ≡ minus_one) × ¬ Woken timeout_ms attempts))

module _ (timeout_ms : ℕ) (attempt : Attempt) (attempts : List Attempt) (ts : Timespec)
    (time : IsTime ts) (shows : attempt.now ≡ some ts) where
  timely :
      (deadlines : List Timespec)
      → Timely timeout_ms attempts deadlines
      → Timely timeout_ms (attempt ∷ attempts) (deadline ts timeout_ms ∷ deadlines)
  timely deadlines rest = let d = deadline_lem ts timeout_ms time in ((ts, shows, d.0, d.1), rest)

  same_time : (ts' : Timespec) → attempt.now ≡ some ts' → ts ≡ ts'
  same_time ts' e = cc (e, shows)

  interrupted-Waited :
      (again : Option (ℤ × List Timespec))
      → attempt.wait (deadline ts timeout_ms) ≡ interrupted
      → Returns (Waited timeout_ms attempts) again
      → Returns
          (Waited timeout_ms (attempt ∷ attempts))
          (with_deadline (deadline ts timeout_ms) again)
  interrupted-Waited none w h = h
  interrupted-Waited (some (r, deadlines)) w h = (
    timely deadlines h.0,
    elim h.1 [
      | inl woken ↦ inl (woken.0, (ts, shows, inr (w, woken.1)))
      | inr lost ↦ inr (
        lost.0,
        (λ k. elim k.2 [ inl s ↦ cc (rw (← same_time k.0 k.1) at s) | inr later ↦ lost.1 later.1 ]),
      )
    ],
  )

  after_wait-Waited :
      (answer : Wait) (again : Option (ℤ × List Timespec))
      → attempt.wait (deadline ts timeout_ms) ≡ answer
      → (answer ≡ interrupted → Returns (Waited timeout_ms attempts) again)
      → Returns
          (Waited timeout_ms (attempt ∷ attempts))
          (after_wait answer (deadline ts timeout_ms) again)
  after_wait-Waited signaled again w h = (timely [] tt, inl (refl, (ts, shows, inl w)))
  after_wait-Waited interrupted again w h = interrupted-Waited again w (h refl)
  after_wait-Waited expired again w h = (
    timely [] tt,
    inr (
      refl,
      (λ k. elim k.2 [
        | inl s ↦ cc (rw (← same_time k.0 k.1) at s)
        | inr later ↦ cc (rw (← same_time k.0 k.1) at later.0)
      ]),
    ),
  )

Returns-map :
    (P Q : ℤ × List Timespec → Type 0)
    → ((r : ℤ × List Timespec) → P r → Q r)
    → (o : Option (ℤ × List Timespec)) → Returns P o
    → Returns Q o
Returns-map P Q f none h = h
Returns-map P Q f (some r) h = f r h

timed_wait-Waited :
    (timeout_ms : ℕ) (attempts : List Attempt)
    → All HasClock attempts
    → Decides timeout_ms attempts
    → Returns (Waited timeout_ms attempts) (timed_wait timeout_ms attempts)
unfolding timed_wait
timed_wait-Waited timeout_ms [] clock decides = absurd decides
timed_wait-Waited timeout_ms (attempt ∷ attempts) clock decides = elim (Option-cases attempt.now) [
  | inl fails ↦ rw fails (tt, inr (refl, (λ k. cc k.1)))
  | inr (ts, shows) ↦
      let d = deadline ts timeout_ms in
      let step : timed_wait timeout_ms (attempt ∷ attempts)
          ≡ after_wait (attempt.wait d) d (timed_wait timeout_ms attempts) =
        rw shows refl in
      subst (Returns (Waited timeout_ms (attempt ∷ attempts))) (sym step) (
        after_wait-Waited timeout_ms attempt attempts ts (clock.0 ts shows) shows (attempt.wait d)
          (timed_wait timeout_ms attempts) refl
          (λ w.
            timed_wait-Waited timeout_ms attempts clock.1
              (elim decides [ inl ready ↦ absurd (ready ts shows w) | inr later ↦ later ])))
]

-- What `HAL_SemaphoreWait` gives: with the infinite timeout always 0, and else what `Waited` says
abbrev pub WaitedFor : ℕ → ℕ → List Attempt → ℤ × List Timespec → Type 0
WaitedFor wait_infinite timeout_ms attempts r =
    ((wait_infinite ≡ timeout_ms) × (r ≡ (pos 0, [])))
    ⊎ ((wait_infinite ≢ timeout_ms) × Waited timeout_ms attempts r)

-- `HAL_SemaphoreWait` with PLATFORM_WAIT_INFINITE returns 0, whatever `sem_wait` returned. With another
-- timeout, when the clock is valid and one of the waits is not interrupted, it ends. It returns 0 then
-- exactly when a signal came behind interrupted waits only. Each deadline is a time that the system
-- accepts, and lies the whole timeout behind the clock of its own attempt: an interrupted wait starts the
-- timeout anew.
pub semaphore_wait-Waited :
    (wait_infinite timeout_ms : ℕ) (sem_wait : Wait) (attempts : List Attempt)
    → All HasClock attempts
    → (wait_infinite ≡ timeout_ms) ⊎ Decides timeout_ms attempts
    → Returns
        (WaitedFor wait_infinite timeout_ms attempts)
        (semaphore_wait wait_infinite timeout_ms sem_wait attempts)
unfolding semaphore_wait
semaphore_wait-Waited wait_infinite timeout_ms sem_wait attempts clock decides =
    elim (Bool-cases (wait_infinite == timeout_ms)) [
      | inl infinite ↦ rw infinite (inl (ground (arith, infinite), refl))
      | inr finite ↦
          let other : wait_infinite ≢ timeout_ms = λ e. ground (arith, e, finite) in
          rw finite (
            Returns-map _ _ (λ r w. inr (other, w)) (timed_wait timeout_ms attempts)
              (timed_wait-Waited timeout_ms attempts clock
                (elim decides [ inl e ↦ absurd (other e) | inr d ↦ d ])))
    ]
