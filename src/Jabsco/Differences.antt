-- ===== src/Jabsco/Differences.antt =====
-- The socket with two options of the Jabsco port, and where its calls of the system agree with those of
-- the ubuntu port, and where not.
use clink3_wiki.Prelude.{
  ℕ, ◌+◌, ◌*◌, ◌/◌, ◌%◌, ◌≡◌, ◌↔◌, refl, ap, ◌∙◌, ◌⊎◌, List, ◌∷◌, Bool, true, false, ◌&&◌, Option,
  some, arith, inl, inr, Bool-cases, ◌==◌,
}
use clink3_wiki.Prelude.Int.{ℤ, pos, negsuc, minus_one}
use clink3_wiki.Udp.Binding.{IsBound, create_without_connect-Created}
use clink3_wiki.Udp.Socket.{Host, host_address, CreateCalls, create_without_connect}
use clink3_wiki.Os.Timing.{TimerValue, timer_start}
use clink3_wiki.Os.Handles.{thread_create}
use clink3_wiki.Jabsco.System.{
  timer_start_port, thread_create_port, OptionCalls, create_with_options,
}

-- The socket is made, and for another port than 0 both of its options are set, the host has an address,
-- and it is bound to the address and the port.
abbrev pub IsBoundPort : OptionCalls → Host → ℕ → ℕ → Type 0
IsBoundPort calls host port fd =
    (calls.socket ≡ some fd)
    × ((port ≡ 0)
        ⊎ ((ip : ℕ) × (calls.sets_broadcast ≡ true)
            × (calls.sets_reuseaddr ≡ true)
            × (host_address host ≡ some ip)
            × (calls.binds ip port ≡ true)))

-- A result of the function: a bound socket that is the only new open one, or -1 with none
abbrev pub CreatedPort : OptionCalls → Host → ℕ → List ℕ → ℤ × List ℕ → Type 0
CreatedPort calls host port fds r =
    ((fd : ℕ) × IsBoundPort calls host port fd × (r ≡ (pos fd, fd ∷ fds)))
    ⊎ (((fd : ℕ) → ¬ IsBoundPort calls host port fd) × (r ≡ (minus_one, fds)))

-- The two calls of `setsockopt` seen as one test, which succeeds when both do
abbrev both_options : OptionCalls → CreateCalls
both_options calls = record {
  socket = calls.socket;
  sets_option = calls.sets_broadcast && calls.sets_reuseaddr;
  binds = calls.binds;
}

create_with_options_lem :
    (calls : OptionCalls) (host : Host) (port : ℕ) (fds : List ℕ)
    → create_with_options calls host port fds
      ≡ create_without_connect (both_options calls) host port fds
unfolding create_with_options create_without_connect
create_with_options_lem calls host port fds = elim (Bool-cases calls.sets_broadcast) [
  | inl b ↦ rw b refl
  | inr b ↦ rw b refl
]

both_true : (a b : Bool) → (a && b) ≡ true → (a ≡ true) × (b ≡ true)
both_true true b e = (refl, e)
both_true false b e = absurd cc

IsBoundPort-iff :
    (calls : OptionCalls) (host : Host) (port fd : ℕ)
    → IsBound (both_options calls) host port fd ↔ IsBoundPort calls host port fd
IsBoundPort-iff calls host port fd = (
  (λ b. (
    b.0,
    elim b.1 [
      | inl none_asked ↦ inl none_asked
      | inr asked ↦
          let (broadcast, reuseaddr) =
            both_true calls.sets_broadcast calls.sets_reuseaddr asked.1 in
          inr (asked.0, broadcast, reuseaddr, asked.2, asked.3)
    ],
  )),
  (λ b. (
    b.0,
    elim b.1 [
      | inl none_asked ↦ inl none_asked
      | inr asked ↦ inr (asked.0, rw (asked.1, asked.2) refl, asked.3, asked.4)
    ],
  )),
)

-- For whatever answers of the calls, `HAL_UDP_create_without_connect` of the Jabsco port returns a socket
-- for which both options are set and which is bound as asked, or has port 0, and which is the only new open
-- descriptor; or, when there is none, -1 with every socket that it made closed again.
pub create_with_options-Created :
    (calls : OptionCalls) (host : Host) (port : ℕ) (fds : List ℕ)
    → CreatedPort calls host port fds (create_with_options calls host port fds)
create_with_options-Created calls host port fds =
    let same = create_with_options_lem calls host port fds in
    elim (create_without_connect-Created (both_options calls) host port fds) [
      | inl made ↦ inl (made.0, (IsBoundPort-iff calls host port made.0).0 made.1, same ∙ made.2)
      | inr failed ↦
          inr ((λ fd b. failed.0 fd ((IsBoundPort-iff calls host port fd).1 b)), same ∙ failed.1)
    ]

-- A value of a timer that lies some nanoseconds ahead
pub record Ahead (ns : ℕ) (v : TimerValue) : Type 0 where
  pub seconds : ℕ
  pub rest : ℕ
  pub tv_sec : v.tv_sec ≡ pos seconds
  pub tv_nsec : v.tv_nsec ≡ pos rest
  pub whole : seconds * 1000000000 + rest ≡ ns

-- For a time of at least 0 milliseconds `HAL_Timer_Start` of the ubuntu port sets the timer to exactly
-- that time; that of the Jabsco port sets it 999000 nanoseconds too early for each millisecond
-- behind the last whole second.
pub timer_start-Ahead :
    (timer ms : ℕ) (timer_settime : TimerValue → ℤ)
    → ((v : TimerValue) × (early : TimerValue) × (timer_start (some timer) (pos ms) timer_settime
          ≡ timer_settime v)
        × (timer_start_port (some timer) (pos ms) timer_settime ≡ timer_settime early)
        × Ahead (ms * 1000000) v
        × ((ns : ℕ) × Ahead ns early × (ns + ms % 1000 * 999000 ≡ ms * 1000000)))
unfolding timer_start timer_start_port
timer_start-Ahead timer ms timer_settime = (
  _,
  _,
  refl,
  refl,
  record {
    seconds = ms / 1000;
    rest = ms % 1000 * 1000000;
    tv_sec = refl;
    tv_nsec = refl;
    whole = omega arith;
  },
  (
    ms / 1000 * 1000000000 + ms % 1000 * 1000,
    record {
      seconds = ms / 1000;
      rest = ms % 1000 * 1000;
      tv_sec = refl;
      tv_nsec = refl;
      whole = refl;
    },
    omega arith,
  ),
)

pos_apart : (n : ℕ) → pos n ≡ pos 0 → (n == 0) ≡ false → ⊥
pos_apart n e other = let same : n ≡ 0 = cc in ground (arith, same, other)

-- `HAL_ThreadCreate` returns 0 in both ports for the same answers of `pthread_create`.
thread_create-same :
    (ret : ℤ) (stack_used : Option ℕ)
    → ((thread_create ret stack_used).0 ≡ pos 0) ↔ ((thread_create_port ret stack_used).0 ≡ pos 0)
unfolding thread_create thread_create_port
thread_create-same (pos n) stack_used = elim (Bool-cases (n == 0)) [
  | inl zero_result ↦
      let e : n ≡ 0 = ground (arith, zero_result) in rw zero_result (λ t. ap pos e, λ t. refl)
  | inr other ↦ rw other (λ t. cc, λ t. absurd (pos_apart n t other))
]
thread_create-same (negsuc n) stack_used = (λ e. cc, λ e. cc)
