-- ===== src/Jabsco/Tests.antt =====
-- A host whose only address refuses the connection, and a datagram that is read.
use clink3_wiki.Prelude.{ℕ, ◌+◌, ◌*◌, ◌%◌, ◌≡◌, refl, [], ◌∷◌, true, false, some}
use clink3_wiki.Prelude.Int.{pos, minus_one}
use clink3_wiki.Tcp.Establish.{Address, close}
use clink3_wiki.Tcp.Outcome.{first_usable}
use clink3_wiki.Jabsco.Client.{udp_create_loop, udp_create}
use clink3_wiki.Jabsco.Addresses.{created, last_socket, udp_create-created}
use clink3_wiki.Udp.Socket.{any_address}
use clink3_wiki.Os.Timing.{TimerValue, timer_start}
use clink3_wiki.Jabsco.System.{timer_start_port, OptionCalls, create_with_options}
use clink3_wiki.Jabsco.Differences.{
  CreatedPort, create_with_options-Created, Ahead, timer_start-Ahead,
}

abbrev refusing : Address
refusing = record { is_inet = true; socket = some 7; connects = false }

-- The result is a descriptor that is not open.
closed_descriptor : udp_create (some []) (pos 0) (refusing ∷ []) (0 ∷ []) ≡ (pos 7, 0 ∷ [])
unfolding udp_create udp_create_loop close
closed_descriptor = refl

udp_create-created_example :
    udp_create (some []) (pos 0) (refusing ∷ []) (0 ∷ [])
    ≡ created (first_usable (refusing ∷ [])) (last_socket (refusing ∷ []) minus_one) (0 ∷ [])
udp_create-created_example = udp_create-created [] (refusing ∷ []) (0 ∷ [])

abbrev option_calls : OptionCalls
option_calls = record {
  socket = some 7;
  sets_broadcast = true;
  sets_reuseaddr = false;
  binds = λ ip port. true;
}

create_with_options-Created_example :
    CreatedPort option_calls any_address 68
      (0 ∷ [])
      (create_with_options option_calls any_address 68 (0 ∷ []))
create_with_options-Created_example =
    create_with_options-Created option_calls any_address 68 (0 ∷ [])

-- The second option cannot be set: the socket is closed.
second_option_fails : create_with_options option_calls any_address 68 (0 ∷ []) ≡ (minus_one, 0 ∷ [])
unfolding create_with_options close
second_option_fails = refl

timer_start-Ahead_example :
    (v : TimerValue) × (early : TimerValue) × (timer_start (some 5) (pos 1500) (λ w. w.tv_nsec)
      ≡ v.tv_nsec)
    × (timer_start_port (some 5) (pos 1500) (λ w. w.tv_nsec) ≡ early.tv_nsec)
    × Ahead (1500 * 1000000) v
    × ((ns : ℕ) × Ahead ns early × (ns + 1500 % 1000 * 999000 ≡ 1500 * 1000000))
timer_start-Ahead_example = timer_start-Ahead 5 1500 (λ w. w.tv_nsec)

-- Half a millisecond in place of half a second
half_second : timer_start_port (some 5) (pos 1500) (λ w. w.tv_nsec) ≡ pos 500000
unfolding timer_start_port
half_second = refl
