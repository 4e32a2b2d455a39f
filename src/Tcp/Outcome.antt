-- ===== src/Tcp/Outcome.antt =====
-- Which address `HAL_TCP_Establish` connects to, and which descriptors it leaves open.
use clink3_wiki.Prelude.{
  sym, ap, ◌∙◌, true, ℕ, ◌≡◌, ◌≢◌, refl, List, [], ◌∷◌, Bool, false, Option, none, some,
  if◌then◌else◌, arith,
}
use clink3_wiki.Prelude.Int.{ℤ, pos, minus_one}
use clink3_wiki.Tcp.Establish.{Address, close, establish_loop, tcp_establish, tcp_destroy}

-- The descriptor of an address that can be used
abbrev pub usable : Address → Option ℕ
usable a = if a.is_inet then (if a.connects then a.socket else none) else none

-- The descriptor of the first such address
abbrev pub first_usable : List Address → Option ℕ
first_usable [] = none
first_usable (a ∷ list) = elim (usable a) [ none ↦ first_usable list | some fd ↦ some fd ]

-- The handle and the descriptors that stay open, given the one that is connected
abbrev pub outcome : Option ℕ → List ℕ → ℤ × List ℕ
outcome none fds = (minus_one, fds)
outcome (some fd) fds = (pos fd, fd ∷ fds)

pub close_newest : (fd : ℕ) (fds : List ℕ) → close fd (fd ∷ fds) ≡ fds
unfolding close
close_newest fd fds = ground arith

-- A node in front of nodes that end as they should
node-outcome :
    (inet : Bool) (made : Option ℕ) (ok : Bool) (list : List Address) (fds : List ℕ)
    → establish_loop list minus_one fds ≡ outcome (first_usable list) fds
    → establish_loop (record { is_inet = inet; socket = made; connects = ok } ∷ list) minus_one fds
      ≡ outcome (first_usable (record { is_inet = inet; socket = made; connects = ok } ∷ list)) fds
unfolding establish_loop
node-outcome false made ok list fds h = h
node-outcome true none true list fds h = h
node-outcome true none false list fds h = h
node-outcome true (some fd) true list fds h = refl
node-outcome true (some fd) false list fds h = rw (close_newest fd fds) h

establish_loop-outcome :
    (list : List Address) (fds : List ℕ)
    → establish_loop list minus_one fds ≡ outcome (first_usable list) fds
unfolding establish_loop
establish_loop-outcome [] fds = refl
establish_loop-outcome (a ∷ list) fds =
    node-outcome a.is_inet a.socket a.connects list fds (establish_loop-outcome list fds)

-- When the host has an address, `HAL_TCP_Establish` connects to the first one that can be used and
-- returns its descriptor, or -1 when there is none; every other socket that it made is closed.
pub tcp_establish-outcome :
    (list : List Address) (fds : List ℕ)
    → list ≢ []
    → tcp_establish (pos 0) list fds ≡ outcome (first_usable list) fds
unfolding tcp_establish establish_loop
tcp_establish-outcome [] fds some_address = absurd (some_address refl)
tcp_establish-outcome (a ∷ list) fds some_address = establish_loop-outcome (a ∷ list) fds

destroy_outcome :
    (o : Option ℕ) (fd : ℕ) (fds fds' : List ℕ)
    → outcome o fds ≡ (pos fd, fds')
    → tcp_destroy true true fd fds' ≡ (pos 0, fds)
unfolding tcp_destroy
destroy_outcome none fd fds fds' e = absurd (cc (ap (λ r. r.0) e))
destroy_outcome (some g) fd fds fds' e =
    let same : g ≡ fd = cc (ap (λ r. r.0) e) in
    let left : g ∷ fds ≡ fds' = ap (λ r. r.1) e in
    rw (← left, same) (ap (λ t. (pos 0, t)) (close_newest fd fds))

-- A connection that `HAL_TCP_Establish` made and `HAL_TCP_Destroy` ended, with no call of the two
-- failing, leaves the open descriptors as they were.
pub tcp_destroy-tcp_establish :
    (list : List Address) (fd : ℕ) (fds fds' : List ℕ)
    → list ≢ []
    → tcp_establish (pos 0) list fds ≡ (pos fd, fds')
    → tcp_destroy true true fd fds' ≡ (pos 0, fds)
tcp_destroy-tcp_establish list fd fds fds' some_address e =
    destroy_outcome (first_usable list) fd fds fds'
      (sym (tcp_establish-outcome list fds some_address) ∙ e)
