-- ===== src/Jabsco/Waiting.antt =====
-- `HAL_UDP_readTimeout` and `HAL_UDP_recv` compared.
use clink3_wiki.Prelude.{ℕ, suc, ◌≡◌, refl, List, Option, none, some}
use clink3_wiki.Prelude.Int.{ℤ, pos, negsuc}
use clink3_wiki.Tcp.Read.{Selected, readable, timed_out, select_interrupted, select_failed}
use clink3_wiki.Jabsco.Client.{waited, udp_read, read_timeout, udp_recv}

-- The two functions agree on what they return but for a timeout.
abbrev pub Agree : Selected → ℤ × List ℕ → ℤ × List ℕ → List ℕ → Type 0
Agree timed_out r s p_data = (r ≡ (negsuc 1, p_data)) × (s ≡ (pos 0, p_data))
Agree readable r s p_data = r ≡ s
Agree select_interrupted r s p_data = r ≡ s
Agree select_failed r s p_data = r ≡ s

-- On a positive descriptor `HAL_UDP_readTimeout` and `HAL_UDP_recv` have the same result and leave the
-- same buffer, but that a timeout is -2 for the one and 0, as an empty datagram, for the other.
pub read_timeout-udp_recv :
    (fd : ℕ) (selected : Selected) (got : Option (List ℕ)) (datalen : ℕ) (p_data : List ℕ)
    → Agree selected
        (read_timeout (pos (suc fd)) selected got datalen p_data)
        (udp_recv selected got datalen p_data)
        p_data
unfolding read_timeout udp_recv waited udp_read
read_timeout-udp_recv fd readable none datalen p_data = refl
read_timeout-udp_recv fd readable (some bytes) datalen p_data = refl
read_timeout-udp_recv fd timed_out got datalen p_data = (refl, refl)
read_timeout-udp_recv fd select_interrupted got datalen p_data = refl
read_timeout-udp_recv fd select_failed got datalen p_data = refl
