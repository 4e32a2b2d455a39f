-- ===== src/Udp/Binding.antt =====
-- Which sockets `HAL_UDP_create_without_connect` leaves open, and which groups they join.
use clink3_wiki.Prelude.{
  ℕ, ◌≡◌, ◌⊎◌, inl, inr, refl, ap, ◌∙◌, List, ◌∷◌, true, false, Option, none, some, ◌==◌,
  Bool-cases, Option-cases, arith,
}
use clink3_wiki.Prelude.Int.{ℤ, pos, negsuc, minus_one}
use clink3_wiki.Tcp.Establish.{close}
use clink3_wiki.Tcp.Outcome.{close_newest}
use clink3_wiki.Udp.Socket.{
  Host, host_address, CreateCalls, create_without_connect, close_without_connect, Membership,
  join_multicast,
}

-- The socket is made, and for another port than 0 its option is set, the host has an address, and it
-- is bound to the address and the port.
abbrev pub IsBound : CreateCalls → Host → ℕ → ℕ → Type 0
IsBound calls host port fd =
    (calls.socket ≡ some fd)
    × ((port ≡ 0)
        ⊎ ((ip : ℕ) × (calls.sets_option ≡ true)
            × (host_address host ≡ some ip)
            × (calls.binds ip port ≡ true)))

-- Closing the newest socket
closed_again : (fd : ℕ) (fds : List ℕ) → close_without_connect true fd (fd ∷ fds) ≡ (pos 0, fds)
unfolding close_without_connect
closed_again fd fds = ap (λ t. (pos 0, t)) (close_newest fd fds)

-- A result of the function: a bound socket that is the only new open one, so that closing it leaves the
-- descriptors as they were, or -1 with none
abbrev pub Created : CreateCalls → Host → ℕ → List ℕ → ℤ × List ℕ → Type 0
Created calls host port fds r =
    ((fd : ℕ) × IsBound calls host port fd
      × (r ≡ (pos fd, fd ∷ fds))
      × (close_without_connect true fd (fd ∷ fds) ≡ (pos 0, fds)))
    ⊎ (((fd : ℕ) → ¬ IsBound calls host port fd) × (r ≡ (minus_one, fds)))

module _ (calls : CreateCalls) (host : Host) (port : ℕ) (fds : List ℕ) where
  -- A call after `socket` fails: the socket is closed.
  refused :
      (fd : ℕ)
      → (port == 0) ≡ false
      → ((ip : ℕ)
          → calls.sets_option ≡ true
          → host_address host ≡ some ip
          → calls.binds ip port ≡ true
          → ⊥)
      → create_without_connect calls host port fds ≡ (minus_one, close fd (fd ∷ fds))
      → Created calls host port fds (create_without_connect calls host port fds)
  refused fd other fails r = inr (
    (λ g b. elim b.1 [
      | inl zero_port ↦ ground (arith, zero_port, other)
      | inr asked ↦ fails asked.0 asked.1 asked.2 asked.3
    ]),
    r ∙ ap (λ t. (minus_one, t)) (close_newest fd fds),
  )

-- For whatever answers of the calls, `HAL_UDP_create_without_connect` returns a socket that is bound as
-- asked and is the only new open descriptor, which `HAL_UDP_close_without_connect` then closes, or, when
-- there is none, -1 with every socket that it made closed again.
pub create_without_connect-Created :
    (calls : CreateCalls) (host : Host) (port : ℕ) (fds : List ℕ)
    → Created calls host port fds (create_without_connect calls host port fds)
unfolding create_without_connect
create_without_connect-Created calls host port fds = elim (Option-cases calls.socket) [
  | inl e ↦ inr ((λ fd b. cc (b.0, e)), rw e refl)
  | inr (fd, e) ↦ elim (Bool-cases (port == 0)) [
    | inl z ↦ inl (fd, (e, inl (ground (arith, z))), rw (e, z) refl, closed_again fd fds)
    | inr other ↦ elim (Bool-cases calls.sets_option) [
      | inr s ↦ refused calls host port fds fd other (λ ip t a c. cc) (rw (e, other, s) refl)
      | inl s ↦ elim (Option-cases (host_address host)) [
        | inl a ↦ refused calls host port fds fd other (λ ip t b c. cc) (rw (e, other, s, a) refl)
        | inr (ip, a) ↦ elim (Bool-cases (calls.binds ip port)) [
          | inl c ↦
              inl (fd, (e, inr (ip, s, a, c)), rw (e, other, s, a, c) refl, closed_again fd fds)
          | inr c ↦
              refused calls host port fds fd other
                (λ ip' t b d. let same : ip ≡ ip' = cc (a, b) in cc (rw (← same) at d))
                (rw (e, other, s, a, c) refl)
        ]
      ]
    ]
  ]
]

-- A result of `HAL_UDP_joinmulticast`: the group is joined and its packets do not come back, or the
-- groups are as they were
abbrev pub Joined : Option (List ℕ) → Membership → ℤ × Membership → Type 0
Joined group m r =
    ((g : List ℕ) × (group ≡ some g)
      × (r ≡ (pos 0, record { loopback = false; groups = g ∷ m.groups })))
    ⊎ ((n : ℕ) × (r.0 ≡ negsuc n) × (r.1.groups ≡ m.groups))

-- `HAL_UDP_joinmulticast` returns 0 exactly when it has joined the group with the loopback off; with a
-- negative result the groups are as they were.
pub join_multicast-Joined :
    (set_loop add : ℤ) (group : Option (List ℕ)) (m : Membership)
    → Joined group m (join_multicast set_loop add group m)
unfolding join_multicast
join_multicast-Joined set_loop add none m = inr (0, refl, refl)
join_multicast-Joined (negsuc n) add (some group) m = inr (n, refl, refl)
join_multicast-Joined (pos k) (negsuc n) (some group) m = inr (n, refl, refl)
join_multicast-Joined (pos k) (pos n) (some group) m = inl (group, refl, refl)
