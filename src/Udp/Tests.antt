-- ===== src/Udp/Tests.antt =====
-- A socket that is bound to a port, and a packet with its answer.
use clink3_wiki.Prelude.{
  ℕ, ◌+◌, ◌-◌, ◌≡◌, ◌==◌, refl, List, [], ◌∷◌, true, Option, none, some, replicate, arith,
}
use clink3_wiki.Prelude.Int.{pos, negsuc}
use clink3_wiki.Tcp.Read.{readable}
use clink3_wiki.Udp.Socket.{
  named, numeric, CreateCalls, create_without_connect, Membership, join_multicast,
}
use clink3_wiki.Udp.Binding.{Created, create_without_connect-Created, Joined, join_multicast-Joined}
use clink3_wiki.Udp.Datagram.{NetworkAddr, Packet, udp_recvfrom, udp_sendto}
use clink3_wiki.Udp.Reply.{Got, udp_recvfrom-Got, udp_sendto-udp_recvfrom}

abbrev calls : CreateCalls
calls = record { socket = some 6; sets_option = true; binds = λ ip port. port == 5683 }

create_without_connect_run : create_without_connect calls (numeric 9) 5683 [] ≡ (pos 6, 6 ∷ [])
unfolding create_without_connect
create_without_connect_run = refl

create_without_connect-Created_example :
    Created calls
      (named none)
      5683
      (0 ∷ [])
      (create_without_connect calls (named none) 5683 (0 ∷ []))
create_without_connect-Created_example =
    create_without_connect-Created calls (named none) 5683 (0 ∷ [])

abbrev no_groups : Membership
no_groups = record { loopback = true; groups = [] }

join_multicast-Joined_example :
    Joined (some (7 ∷ [])) no_groups (join_multicast (pos 0) (negsuc 0) (some (7 ∷ [])) no_groups)
join_multicast-Joined_example = join_multicast-Joined (pos 0) (negsuc 0) (some (7 ∷ [])) no_groups

abbrev packet : Packet
packet = record { ip = 3; port = 5683; bytes = 1 ∷ 2 ∷ [] }

-- Addresses of one character
abbrev name_of : ℕ → List ℕ
name_of ip = (ip + 48) ∷ []

abbrev address_of : List ℕ → Option ℕ
address_of [] = none
address_of (c ∷ s) = some (c - 48)

abbrev remote : NetworkAddr
remote = record { addr = replicate 16 0; port = 0 }

udp_recvfrom-Got_example :
    Got name_of 4
      (some remote)
      (replicate 4 0)
      readable
      (some packet)
      (udp_recvfrom name_of readable (some packet) 4 (some remote) (replicate 4 0))
udp_recvfrom-Got_example =
    udp_recvfrom-Got name_of readable (some packet) 4 (some remote) (replicate 4 0)

udp_sendto-udp_recvfrom_example :
    (reply : NetworkAddr) × ((udp_recvfrom name_of readable
        (some packet)
        4
        (some remote)
        (replicate 4 0)).1
      ≡ some reply)
    × (udp_sendto address_of address_of readable (some 1) reply (9 ∷ []) 1 []
        ≡ (pos 1, record { ip = 3; port = 5683; bytes = 9 ∷ [] } ∷ []))
udp_sendto-udp_recvfrom_example =
    udp_sendto-udp_recvfrom name_of address_of address_of packet remote (replicate 4 0) (9 ∷ []) 4
      [] (omega arith, tt) (omega arith) refl refl (omega arith) (omega arith) (omega arith)
