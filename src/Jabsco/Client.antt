-- ===== src/Jabsco/Client.antt =====
-- The UDP functions of a client: `HAL_UDP_create`, `_close`, `_connect`, `_write`, `_read`, `_readTimeout`,
-- `_recv` and `_send`.
use clink3_wiki.Prelude.{
  ℕ, zero, suc, List, [], ◌∷◌, Option, none, some, ◌==◌, if◌then◌else◌, take, length,
}
use clink3_wiki.Prelude.Int.{ℤ, pos, negsuc, minus_one}
use clink3_wiki.Prelude.Buffer.{memcpy}
use clink3_wiki.Tcp.Establish.{Address, close}
use clink3_wiki.Tcp.Read.{Selected, readable, timed_out, select_interrupted, select_failed}

-- The `for` loop of `HAL_UDP_create` from a node on, with `socket_id` and the open descriptors
unfoldable pub udp_create_loop : List Address → ℤ → List ℕ → ℤ × List ℕ
udp_create_loop [] socket_id fds = (socket_id, fds)
udp_create_loop (ainfo ∷ list) socket_id fds =
    if ainfo.is_inet
    then elim ainfo.socket [
      | none ↦ udp_create_loop list minus_one fds
      | some fd ↦
          if ainfo.connects
          then (pos fd, fd ∷ fds)
          else udp_create_loop list (pos fd) (close fd (fd ∷ fds))
    ]
    else udp_create_loop list socket_id fds

-- What follows `getaddrinfo`, which returns `rc` and the list
abbrev pub created_from : ℤ → List Address → List ℕ → ℤ × List ℕ
created_from (negsuc n) list fds = (minus_one, fds)
created_from (pos n) list fds =
    if n == 0 then udp_create_loop list minus_one fds else (minus_one, fds)

-- `HAL_UDP_create`
unfoldable pub udp_create : Option (List ℕ) → ℤ → List Address → List ℕ → ℤ × List ℕ
udp_create none rc list fds = (minus_one, fds)
udp_create (some host) rc list fds = created_from rc list fds

-- `HAL_UDP_close`, when `close` succeeds
unfoldable pub udp_close : ℕ → List ℕ → List ℕ
udp_close fd fds = close fd fds

-- The `for` loop of `HAL_UDP_connect`: the address that the socket is connected to, or `none` when none
-- of them connects
unfoldable pub connect_loop : List Address → Option Address
connect_loop [] = none
connect_loop (ainfo ∷ list) =
    let rest = connect_loop list in
    if ainfo.is_inet then (if ainfo.connects then some ainfo else rest) else rest

abbrev pub connect_result : Option Address → ℤ
connect_result none = minus_one
connect_result (some ainfo) = pos 0

-- What follows `getaddrinfo`, with the peer that the socket gets and the one that it had
abbrev pub connected_from : ℤ → List Address → Option Address → ℤ × Option Address
connected_from (negsuc n) list peer = (minus_one, peer)
connected_from (pos n) list peer =
    if n == 0
    then (
      connect_result (connect_loop list),
      elim (connect_loop list) [ none ↦ peer | some a ↦ some a ],
    )
    else (minus_one, peer)

-- `HAL_UDP_connect`
unfoldable pub udp_connect :
    Option (List ℕ) → ℤ → List Address → Option Address → ℤ × Option Address
udp_connect none rc list peer = (minus_one, peer)
udp_connect (some host) rc list peer = connected_from rc list peer

-- `HAL_UDP_write`, with what `send` returns
unfoldable pub udp_write : Option ℕ → ℤ
udp_write none = minus_one
udp_write (some sent) = pos sent

-- What `read` returns: bytes, or -1
abbrev pub read_into : Option (List ℕ) → List ℕ → ℤ × List ℕ
read_into none p_data = (minus_one, p_data)
read_into (some bytes) p_data = (pos (length bytes), memcpy p_data 0 bytes)

-- `HAL_UDP_read`, for a pointer that is not NULL, and the buffer behind it. `read` gives at most `datalen`
-- bytes of the datagram.
unfoldable pub udp_read : ℤ → Option (List ℕ) → ℕ → List ℕ → ℤ × List ℕ
udp_read (negsuc n) got datalen p_data = (minus_one, p_data)
udp_read (pos zero) got datalen p_data = (minus_one, p_data)
udp_read (pos (suc fd)) none datalen p_data = read_into none p_data
udp_read (pos (suc fd)) (some bytes) datalen p_data = read_into (some (take datalen bytes)) p_data

-- What follows `select` where the codes of a wait are returned, with the result for a timeout
unfoldable pub waited : ℤ → Selected → ℤ × List ℕ → List ℕ → ℤ × List ℕ
waited code readable done p_data = done
waited code timed_out done p_data = (code, p_data)
waited code select_interrupted done p_data = (negsuc 2, p_data)
waited code select_failed done p_data = (negsuc 3, p_data)

-- `HAL_UDP_readTimeout`, for a pointer that is not NULL
unfoldable pub read_timeout : ℤ → Selected → Option (List ℕ) → ℕ → List ℕ → ℤ × List ℕ
unfolding waited
read_timeout (negsuc n) selected got datalen p_data = (minus_one, p_data)
read_timeout (pos zero) selected got datalen p_data = (minus_one, p_data)
read_timeout (pos (suc fd)) selected got datalen p_data =
    waited (negsuc 1) selected (udp_read (pos (suc fd)) got datalen p_data) p_data

-- What `HAL_UDP_recv` reads
abbrev pub read_datagram : Option (List ℕ) → ℕ → List ℕ → ℤ × List ℕ
read_datagram none datalen p_data = read_into none p_data
read_datagram (some bytes) datalen p_data = read_into (some (take datalen bytes)) p_data

-- `HAL_UDP_recv`
unfoldable pub udp_recv : Selected → Option (List ℕ) → ℕ → List ℕ → ℤ × List ℕ
unfolding waited
udp_recv selected got datalen p_data =
    waited (pos 0) selected (read_datagram got datalen p_data) p_data

-- `HAL_UDP_send`, with what `send` returns
unfoldable pub udp_send : Selected → Option ℕ → ℤ
udp_send readable sent = udp_write sent
udp_send timed_out sent = pos 0
udp_send select_interrupted sent = negsuc 2
udp_send select_failed sent = negsuc 3
