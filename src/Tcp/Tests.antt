-- ===== src/Tcp/Tests.antt =====
-- A host with two addresses, of which the second one answers, and a connection with a few turns.
use clink3_wiki.Prelude.{◌≡◌, refl, [], ◌∷◌, true, false, some, take, min}
use clink3_wiki.Prelude.Int.{pos}
use clink3_wiki.Tcp.Establish.{Address, close, tcp_establish, tcp_destroy, establish_loop}
use clink3_wiki.Tcp.Read.{Turn, readable, data_bytes, closed, read_loop, tcp_read}
use clink3_wiki.Tcp.Write.{WriteTurn, writable, not_set, accepted, no_bytes}
use clink3_wiki.Tcp.Sending
use clink3_wiki.Tcp.Outcome.{
  first_usable, outcome, tcp_establish-outcome, tcp_destroy-tcp_establish,
}

abbrev silent : Address
silent = record { is_inet = true; socket = some 4; connects = false }

abbrev answering : Address
answering = record { is_inet = true; socket = some 5; connects = true }

tcp_establish-outcome_example :
    tcp_establish (pos 0) (silent ∷ answering ∷ []) (0 ∷ 1 ∷ [])
    ≡ outcome (first_usable (silent ∷ answering ∷ [])) (0 ∷ 1 ∷ [])
tcp_establish-outcome_example =
    tcp_establish-outcome (silent ∷ answering ∷ []) (0 ∷ 1 ∷ []) (λ e. cc e)

second_answers :
    tcp_establish (pos 0) (silent ∷ answering ∷ []) (0 ∷ 1 ∷ []) ≡ (pos 5, 5 ∷ 0 ∷ 1 ∷ [])
unfolding tcp_establish establish_loop close
second_answers = refl

tcp_destroy-tcp_establish_example : tcp_destroy true true 5 (5 ∷ 0 ∷ 1 ∷ []) ≡ (pos 0, 0 ∷ 1 ∷ [])
tcp_destroy-tcp_establish_example =
    tcp_destroy-tcp_establish (silent ∷ answering ∷ []) 5 (0 ∷ 1 ∷ []) (5 ∷ 0 ∷ 1 ∷ []) (λ e. cc e)
      second_answers

abbrev two_bytes : Turn
two_bytes = record {
  now = 10;
  select = readable;
  recv = λ room. data_bytes (take room (7 ∷ 8 ∷ []));
}

abbrev hang_up : Turn
hang_up = record { now = 11; select = readable; recv = λ room. closed }

abbrev too_late : Turn
too_late = record { now = 200; select = readable; recv = λ room. closed }

-- Two bytes arrive and the peer closes: the bytes come first.
tcp_read_run :
    tcp_read 1024 5 (two_bytes ∷ hang_up ∷ too_late ∷ []) 3 (0 ∷ 0 ∷ 0 ∷ []) 3 100
    ≡ some (pos 2, 7 ∷ 8 ∷ 0 ∷ [])
unfolding tcp_read read_loop
tcp_read_run = refl

-- At most two bytes go out in one turn.
abbrev takes_two : WriteTurn
takes_two = record { now = 10; select = writable; send = λ room. accepted (min 2 room); later = 20 }

abbrev out_of_time : WriteTurn
out_of_time = record { now = 90; select = not_set; send = λ room. no_bytes; later = 110 }
