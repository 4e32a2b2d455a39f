-- ===== src/Udp/Datagram.antt =====
-- `HAL_UDP_recvfrom` and `HAL_UDP_sendto`.
use clink3_wiki.Prelude.{
  ℕ, List, [], ◌∷◌, ◌++◌, Option, none, some, ltb, if◌then◌else◌, take, length,
}
use clink3_wiki.Prelude.Int.{ℤ, pos, negsuc, minus_one}
use clink3_wiki.Prelude.Buffer.{memcpy}
use clink3_wiki.Tcp.Read.{Selected, readable, timed_out, select_interrupted, select_failed}
use clink3_wiki.Wifi.Commands.{text_of}

-- `NetworkAddr`: the array of the address, and the port
pub record NetworkAddr : Type 0 where
  pub addr : List ℕ
  pub port : ℕ

-- A datagram on the network: the address and the port of its other end, and its bytes
pub record Packet : Type 0 where
  pub ip : ℕ
  pub port : ℕ
  pub bytes : List ℕ

-- What `recvfrom` returns: the first `datalen` bytes of a packet, or -1
unfoldable pub after_recvfrom :
    (ℕ → List ℕ) → Option Packet → ℕ → Option NetworkAddr → List ℕ → ℤ × Option NetworkAddr × List ℕ
after_recvfrom inet_ntoa none datalen p_remote p_data = (minus_one, p_remote, p_data)
after_recvfrom inet_ntoa (some packet) datalen p_remote p_data =
    let got = take datalen packet.bytes in
    if ltb 0 (length got)
    then (
      pos (length got),
      elim p_remote [
        | none ↦ none
        | some remote ↦ some (record {
          addr = memcpy remote.addr 0 (inet_ntoa packet.ip ++ 0 ∷ []);
          port = packet.port;
        })
      ],
      memcpy p_data 0 got,
    )
    else (minus_one, p_remote, p_data)

-- `HAL_UDP_recvfrom`: its result, `*p_remote` and `p_data`
unfoldable pub udp_recvfrom :
    (ℕ → List ℕ)
    → Selected
    → Option Packet
    → ℕ
    → Option NetworkAddr
    → List ℕ
    → ℤ × Option NetworkAddr × List ℕ
unfolding after_recvfrom
udp_recvfrom inet_ntoa readable got datalen p_remote p_data =
    after_recvfrom inet_ntoa got datalen p_remote p_data
udp_recvfrom inet_ntoa timed_out got datalen p_remote p_data = (pos 0, p_remote, p_data)
udp_recvfrom inet_ntoa select_interrupted got datalen p_remote p_data = (negsuc 2, p_remote, p_data)
udp_recvfrom inet_ntoa select_failed got datalen p_remote p_data = (negsuc 3, p_remote, p_data)

-- What `sendto` returns and the packets on the network behind it: it takes a number of bytes, or
-- fails.
unfoldable pub after_sendto : Option ℕ → ℕ → ℕ → List ℕ → ℕ → List Packet → ℤ × List Packet
after_sendto none ip port p_data datalen network = (minus_one, network)
after_sendto (some taken) ip port p_data datalen network = (
  (if ltb 0 taken then pos taken else minus_one),
  record { ip = ip; port = port; bytes = take taken (take datalen p_data) } ∷ network,
)

-- What follows when the address is known
unfoldable pub send_when_ready :
    Selected → Option ℕ → ℕ → ℕ → List ℕ → ℕ → List Packet → ℤ × List Packet
unfolding after_sendto
send_when_ready readable sent ip port p_data datalen network =
    after_sendto sent ip port p_data datalen network
send_when_ready timed_out sent ip port p_data datalen network = (pos 0, network)
send_when_ready select_interrupted sent ip port p_data datalen network = (negsuc 2, network)
send_when_ready select_failed sent ip port p_data datalen network = (negsuc 3, network)

-- `ip`: what `inet_aton` reads, or else what `gethostbyname` finds
abbrev pub resolve : Option ℕ → Option ℕ → Option ℕ
resolve (some ip) found = some ip
resolve none found = found

-- What follows when the name is resolved, or is not
unfoldable pub send_resolved :
    Option ℕ → Selected → Option ℕ → ℕ → List ℕ → ℕ → List Packet → ℤ × List Packet
unfolding send_when_ready
send_resolved none selected sent port p_data datalen network = (minus_one, network)
send_resolved (some ip) selected sent port p_data datalen network =
    send_when_ready selected sent ip port p_data datalen network

-- `HAL_UDP_sendto`. `inet_aton` and `gethostbyname` give the address of a text.
unfoldable pub udp_sendto :
    (List ℕ → Option ℕ)
    → (List ℕ → Option ℕ)
    → Selected
    → Option ℕ
    → NetworkAddr
    → List ℕ
    → ℕ
    → List Packet
    → ℤ × List Packet
unfolding send_resolved
udp_sendto inet_aton gethostbyname selected sent p_remote p_data datalen network =
    send_resolved
      (resolve (inet_aton (text_of p_remote.addr)) (gethostbyname (text_of p_remote.addr))) selected
      sent p_remote.port p_data datalen network
