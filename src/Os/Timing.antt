-- ===== src/Os/Timing.antt =====
-- The functions that count time: `_linux_get_time_ms`, `HAL_UptimeMs`, `HAL_SemaphoreWait`,
-- `HAL_Timer_Start` and `HAL_Timer_Stop`.
use clink3_wiki.Prelude.{
  ℕ, ◌+◌, ◌-◌, ◌*◌, ◌/◌, ◌%◌, ◌^◌, List, [], ◌∷◌, Option, none, some, ◌==◌, leb, if◌then◌else◌,
}
use clink3_wiki.Prelude.Int.{ℤ, pos, negsuc, minus_one, sub_ℕ}

-- `struct timespec`
pub record Timespec : Type 0 where
  pub tv_sec : ℕ
  pub tv_nsec : ℕ

-- `_linux_get_time_ms`, from seconds and microseconds
unfoldable pub linux_get_time_ms : ℕ → ℕ → ℕ
linux_get_time_ms tv_sec tv_usec = tv_sec * 1000 + tv_usec / 1000

-- `HAL_UptimeMs`, from what `clock_gettime` gives
unfoldable pub uptime_ms : Timespec → ℕ
uptime_ms ts = ts.tv_sec * 1000 + ts.tv_nsec / 1000 / 1000

-- The deadline that `HAL_SemaphoreWait` computes
unfoldable pub deadline : Timespec → ℕ → Timespec
deadline ts timeout_ms =
    let nsec = ts.tv_nsec + timeout_ms % 1000 * 1000000 in
    if leb 1000000000 nsec
    then record { tv_sec = ts.tv_sec + (timeout_ms / 1000 + 1); tv_nsec = nsec - 1000000000 }
    else record { tv_sec = ts.tv_sec + timeout_ms / 1000; tv_nsec = nsec }

-- What `sem_timedwait` returns: 0, -1 with EINTR, or -1 with another error
pub data Wait : Type 0 where
  signaled : Wait
  interrupted : Wait
  expired : Wait

-- One turn of the loop: what `clock_gettime` gives, or `none` for -1, and `sem_timedwait` for a deadline
pub record Attempt : Type 0 where
  pub now : Option Timespec
  pub wait : Timespec → Wait

-- The loop of `HAL_SemaphoreWait` and what follows it: the result and the deadlines that it waited for, or
-- `none` while the loop has not ended
abbrev pub with_deadline : Timespec → Option (ℤ × List Timespec) → Option (ℤ × List Timespec)
with_deadline ts none = none
with_deadline ts (some (r, deadlines)) = some (r, ts ∷ deadlines)

abbrev pub after_wait : Wait → Timespec → Option (ℤ × List Timespec) → Option (ℤ × List Timespec)
after_wait signaled ts again = some (pos 0, ts ∷ [])
after_wait interrupted ts again = with_deadline ts again
after_wait expired ts again = some (minus_one, ts ∷ [])

unfoldable pub timed_wait : ℕ → List Attempt → Option (ℤ × List Timespec)
unfolding deadline
timed_wait timeout_ms [] = none
timed_wait timeout_ms (attempt ∷ attempts) =
    let again = timed_wait timeout_ms attempts in
    elim attempt.now [
      | none ↦ some (minus_one, [])
      | some ts ↦ after_wait (attempt.wait (deadline ts timeout_ms)) (deadline ts timeout_ms) again
    ]

-- `HAL_SemaphoreWait`. PLATFORM_WAIT_INFINITE is a constant of the platform; the result of `sem_wait` is
-- not looked at.
unfoldable pub semaphore_wait : ℕ → ℕ → Wait → List Attempt → Option (ℤ × List Timespec)
unfolding timed_wait
semaphore_wait wait_infinite timeout_ms sem_wait attempts =
    if wait_infinite == timeout_ms then some (pos 0, []) else timed_wait timeout_ms attempts

-- `it_value`, which `timer_settime` gets
pub record TimerValue : Type 0 where
  pub tv_sec : ℤ
  pub tv_nsec : ℤ

-- `HAL_Timer_Start`: its result with what `timer_settime` returns, and the value. Division of an `int`
-- cuts towards 0.
unfoldable pub timer_start : Option ℕ → ℤ → (TimerValue → ℤ) → ℤ
timer_start none ms timer_settime = minus_one
timer_start (some timer) (pos ms) timer_settime =
    timer_settime (record { tv_sec = pos (ms / 1000); tv_nsec = pos (ms % 1000 * 1000000) })
timer_start (some timer) (negsuc n) timer_settime =
    timer_settime
      (record { tv_sec = sub_ℕ 0 ((n + 1) / 1000); tv_nsec = sub_ℕ 0 ((n + 1) % 1000 * 1000000) })

-- `HAL_Timer_Stop`
unfoldable pub timer_stop : Option ℕ → (TimerValue → ℤ) → ℤ
timer_stop none timer_settime = minus_one
timer_stop (some timer) timer_settime = timer_settime (record { tv_sec = pos 0; tv_nsec = pos 0 })

-- The argument of `usleep` in `HAL_SleepMs`, an unsigned product
unfoldable pub sleep_us : ℕ → ℕ
sleep_us ms = 1000 * ms % 2 ^ 32
