-- ===== src/Jabsco/System.antt =====
-- The calls of the system that the Jabsco port makes in another way than the ubuntu port: timers,
-- threads, the test of the network, and the UDP socket with two options.
use clink3_wiki.Prelude.{
  ℕ, ◌+◌, ◌*◌, ◌/◌, ◌%◌, List, [], ◌∷◌, Bool, Option, none, some, ◌==◌, if◌then◌else◌,
}
use clink3_wiki.Prelude.Int.{ℤ, pos, negsuc, minus_one, sub_ℕ}
use clink3_wiki.Prelude.Text.{codes}
use clink3_wiki.Tcp.Establish.{close}
use clink3_wiki.Udp.Socket.{Host, host_address}
use clink3_wiki.Os.Timing.{TimerValue}
use clink3_wiki.Wifi.Commands.{Command}

-- `HAL_Awss_Get_Timeout_Interval_Ms`
abbrev supplicant_timeout_ms : ℕ
supplicant_timeout_ms = 30 * 60 * 1000

-- `HAL_Timer_Start`: it multiplies the milliseconds behind the seconds by 1000.
unfoldable pub timer_start_port : Option ℕ → ℤ → (TimerValue → ℤ) → ℤ
timer_start_port none ms timer_settime = minus_one
timer_start_port (some timer) (pos ms) timer_settime =
    timer_settime (record { tv_sec = pos (ms / 1000); tv_nsec = pos (ms % 1000 * 1000) })
timer_start_port (some timer) (negsuc n) timer_settime =
    timer_settime
      (record { tv_sec = sub_ℕ 0 ((n + 1) / 1000); tv_nsec = sub_ℕ 0 ((n + 1) % 1000 * 1000) })

-- `HAL_ThreadCreate`, with what `pthread_create` returns: the result, and `*stack_used`
unfoldable pub thread_create_port : ℤ → Option ℕ → ℤ × Option ℕ
thread_create_port ret stack_used = (ret, elim stack_used [ none ↦ none | some n ↦ some 0 ])

-- `HAL_Sys_Net_Is_Ready`: its command, and its result with what `system` returns for it
unfoldable pub net_is_ready_port : (Command → ℤ) → ℤ × List Command
net_is_ready_port system =
    let command = codes "ifconfig wlan0 | grep inet " in
    (
      elim (system command) [ pos n ↦ if n == 0 then pos 1 else pos 0 | negsuc n ↦ pos 0 ],
      command ∷ [],
    )

-- The descriptor of `socket`, whether `setsockopt` returns 0 for SO_BROADCAST and for SO_REUSEADDR, and
-- whether `bind` succeeds for an address and a port
pub record OptionCalls : Type 0 where
  pub socket : Option ℕ
  pub sets_broadcast : Bool
  pub sets_reuseaddr : Bool
  pub binds : ℕ → ℕ → Bool

-- `HAL_UDP_create_without_connect`: its result and the open descriptors
unfoldable pub create_with_options : OptionCalls → Host → ℕ → List ℕ → ℤ × List ℕ
create_with_options calls host port fds = elim calls.socket [
  | none ↦ (minus_one, fds)
  | some fd ↦
      if port == 0
      then (pos fd, fd ∷ fds)
      else (if calls.sets_broadcast
          then (if calls.sets_reuseaddr
              then elim (host_address host) [
                | none ↦ (minus_one, close fd (fd ∷ fds))
                | some ip ↦
                    if calls.binds ip port
                    then (pos fd, fd ∷ fds)
                    else (minus_one, close fd (fd ∷ fds))
              ]
              else (minus_one, close fd (fd ∷ fds)))
          else (minus_one, close fd (fd ∷ fds)))
]
