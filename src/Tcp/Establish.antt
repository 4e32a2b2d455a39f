-- ===== src/Tcp/Establish.antt =====
-- `HAL_TCP_Establish`: the addresses of a host are tried in order.
use clink3_wiki.Prelude.{ℕ, List, [], ◌∷◌, Bool, Option, none, some, ◌==◌, if◌then◌else◌}
use clink3_wiki.Prelude.Int.{ℤ, pos, negsuc, minus_one}

-- A node of `addrInfoList` and how its calls end: whether its family is AF_INET, the descriptor
-- that `socket` returns or `none` for a failure, and whether `connect` returns 0.
pub record Address : Type 0 where
  pub is_inet : Bool
  pub socket : Option ℕ
  pub connects : Bool

-- `close`: the descriptor leaves the open ones.
unfoldable pub close : ℕ → List ℕ → List ℕ
close fd [] = []
close fd (g ∷ fds) = let rest = close fd fds in if g == fd then fds else g ∷ rest

-- The `for` loop from a node on, with `rc` and the open descriptors of the process: `rc` and the
-- open descriptors behind the loop
unfoldable pub establish_loop : List Address → ℤ → List ℕ → ℤ × List ℕ
establish_loop [] rc fds = (rc, fds)
establish_loop (cur ∷ list) rc fds =
    if cur.is_inet
    then elim cur.socket [
      | none ↦ establish_loop list minus_one fds
      | some fd ↦
          if cur.connects
          then (pos fd, fd ∷ fds)
          else establish_loop list minus_one (close fd (fd ∷ fds))
    ]
    else establish_loop list minus_one fds

-- `getaddrinfo` returns `rc` and the list. The returned handle is -1 for a failure.
unfoldable pub tcp_establish : ℤ → List Address → List ℕ → ℤ × List ℕ
tcp_establish (negsuc n) list fds = (minus_one, fds)
tcp_establish (pos n) list fds =
    if n == 0 then establish_loop list (pos 0) fds else (minus_one, fds)

-- `HAL_TCP_Destroy`, given whether `shutdown` and `close` return 0. A descriptor whose `close` fails
-- counts as open.
unfoldable pub tcp_destroy : Bool → Bool → ℕ → List ℕ → ℤ × List ℕ
unfolding close
tcp_destroy shut_down closes fd fds =
    if shut_down
    then (if closes then (pos 0, close fd fds) else (minus_one, fds))
    else (minus_one, fds)
