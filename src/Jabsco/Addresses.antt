-- ===== src/Jabsco/Addresses.antt =====
-- Which socket `HAL_UDP_create` returns, which ones it leaves open, and which peer `HAL_UDP_connect` sets.
use clink3_wiki.Prelude.{
  ℕ, ◌≡◌, refl, List, [], ◌∷◌, Bool, true, false, Option, none, some, if◌then◌else◌,
}
use clink3_wiki.Prelude.Int.{ℤ, pos, minus_one}
use clink3_wiki.Tcp.Establish.{Address}
use clink3_wiki.Tcp.Outcome.{first_usable, close_newest}
use clink3_wiki.Jabsco.Client.{udp_create_loop, udp_create}

-- What `socket` returned for the last address of the right family
abbrev pub last_socket : List Address → ℤ → ℤ
last_socket [] id = id
last_socket (a ∷ list) id =
    if a.is_inet
    then elim a.socket [ none ↦ last_socket list minus_one | some fd ↦ last_socket list (pos fd) ]
    else last_socket list id

-- The result, given the descriptor that is connected
abbrev pub created : Option ℕ → ℤ → List ℕ → ℤ × List ℕ
created none id fds = (id, fds)
created (some fd) id fds = (pos fd, fd ∷ fds)

node-created :
    (inet : Bool) (made : Option ℕ) (ok : Bool) (list : List Address) (id : ℤ) (fds : List ℕ)
    → ((other : ℤ)
        → udp_create_loop list other fds ≡ created (first_usable list) (last_socket list other) fds)
    → udp_create_loop (record { is_inet = inet; socket = made; connects = ok } ∷ list) id fds
      ≡ created
          (first_usable (record { is_inet = inet; socket = made; connects = ok } ∷ list))
          (last_socket (record { is_inet = inet; socket = made; connects = ok } ∷ list) id)
          fds
unfolding udp_create_loop
node-created false made ok list id fds h = h id
node-created true none true list id fds h = h minus_one
node-created true none false list id fds h = h minus_one
node-created true (some fd) true list id fds h = refl
node-created true (some fd) false list id fds h = rw (close_newest fd fds) (h (pos fd))

udp_create_loop-created :
    (list : List Address) (id : ℤ) (fds : List ℕ)
    → udp_create_loop list id fds ≡ created (first_usable list) (last_socket list id) fds
unfolding udp_create_loop
udp_create_loop-created [] id fds = refl
udp_create_loop-created (a ∷ list) id fds =
    node-created a.is_inet a.socket a.connects list id fds
      (λ other. udp_create_loop-created list other fds)

-- For the addresses of a host `HAL_UDP_create` connects to the first one that can be used, and closes every
-- other socket that it made. When none can be used it returns what `socket` returned for the last address
-- of the right family: a descriptor that it has closed, unless that call failed.
pub udp_create-created :
    (host : List ℕ) (list : List Address) (fds : List ℕ)
    → udp_create (some host) (pos 0) list fds
      ≡ created (first_usable list) (last_socket list minus_one) fds
unfolding udp_create
udp_create-created host list fds = udp_create_loop-created list minus_one fds
