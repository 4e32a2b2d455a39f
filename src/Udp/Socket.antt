-- ===== src/Udp/Socket.antt =====
-- `HAL_UDP_create_without_connect`, `HAL_UDP_close_without_connect` and `HAL_UDP_joinmulticast`.
use clink3_wiki.Prelude.{ℕ, List, ◌∷◌, Bool, false, Option, none, some, ◌==◌, if◌then◌else◌}
use clink3_wiki.Prelude.Int.{ℤ, pos, negsuc, minus_one}
use clink3_wiki.Tcp.Establish.{close}

-- The argument `host`: NULL, a text with the address that `inet_aton` reads, or a name with the answer
-- of `gethostbyname`
pub data Host : Type 0 where
  any_address : Host
  numeric : ℕ → Host
  named : Option ℕ → Host

-- `addr.sin_addr.s_addr`, or `none` for a name without an address. INADDR_ANY is 0.
abbrev pub host_address : Host → Option ℕ
host_address any_address = some 0
host_address (numeric ip) = some ip
host_address (named found) = found

-- The descriptor of `socket`, whether `setsockopt` returns 0, and whether `bind` succeeds for an
-- address and a port
pub record CreateCalls : Type 0 where
  pub socket : Option ℕ
  pub sets_option : Bool
  pub binds : ℕ → ℕ → Bool

-- `HAL_UDP_create_without_connect`: its result and the open descriptors
unfoldable pub create_without_connect : CreateCalls → Host → ℕ → List ℕ → ℤ × List ℕ
create_without_connect calls host port fds = elim calls.socket [
  | none ↦ (minus_one, fds)
  | some fd ↦
      if port == 0
      then (pos fd, fd ∷ fds)
      else (if calls.sets_option
          then elim (host_address host) [
            | none ↦ (minus_one, close fd (fd ∷ fds))
            | some ip ↦
                if calls.binds ip port then (pos fd, fd ∷ fds) else (minus_one, close fd (fd ∷ fds))
          ]
          else (minus_one, close fd (fd ∷ fds)))
]

-- `HAL_UDP_close_without_connect`, given whether `close` returns 0
unfoldable pub close_without_connect : Bool → ℕ → List ℕ → ℤ × List ℕ
close_without_connect closes fd fds = if closes then (pos 0, close fd fds) else (minus_one, fds)

-- What the system keeps for a socket: whether its multicasts come back to it, and its groups
pub record Membership : Type 0 where
  pub loopback : Bool
  pub groups : List (List ℕ)

-- What follows `setsockopt` for IP_ADD_MEMBERSHIP with its result
abbrev pub add_membership : ℤ → List ℕ → Membership → ℤ × Membership
add_membership (negsuc n) group m = (negsuc n, m)
add_membership (pos n) group m = (pos 0, record m { groups = group ∷ m.groups })

-- `HAL_UDP_joinmulticast`, with the results of the two calls of `setsockopt`
unfoldable pub join_multicast : ℤ → ℤ → Option (List ℕ) → Membership → ℤ × Membership
join_multicast set_loop add none m = (minus_one, m)
join_multicast (negsuc n) add (some group) m = (negsuc n, m)
join_multicast (pos n) add (some group) m = add_membership add group (record m { loopback = false })
