-- ===== src/Udp/Reply.antt =====
-- What `HAL_UDP_recvfrom` gives its caller, and an answer to the sender of a packet.
use clink3_wiki.Prelude.{
  ℕ, zero, suc, ◌≢◌, false, ◌<◌, ◌≡◌, ◌⊎◌, inl, inr, refl, ap, ◌∙◌, List, [], ◌∷◌, ◌++◌,
  append_assoc, true, Option, none, some, ltb, Bool-cases, lt→ltb, take, drop, take_all, length,
  length-append, length-take, arith,
}
use clink3_wiki.Prelude.Int.{ℤ, pos, negsuc, minus_one}
use clink3_wiki.Prelude.Buffer.{IsText, memcpy, memcpy-start}
use clink3_wiki.Tcp.Read.{Selected, readable, timed_out, select_interrupted, select_failed}
use clink3_wiki.Wifi.Commands.{text_of}
use clink3_wiki.Wifi.AccessPoint.{text_of-zero}
use clink3_wiki.Udp.Datagram.{
  NetworkAddr, Packet, after_recvfrom, udp_recvfrom, after_sendto, send_when_ready, resolve,
  send_resolved, udp_sendto,
}

-- `*p_remote` behind a packet
abbrev pub sender : (ℕ → List ℕ) → Packet → NetworkAddr → NetworkAddr
sender inet_ntoa packet remote = record {
  addr = memcpy remote.addr 0 (inet_ntoa packet.ip ++ 0 ∷ []);
  port = packet.port;
}

abbrev pub sender_at : (ℕ → List ℕ) → Packet → Option NetworkAddr → Option NetworkAddr
sender_at inet_ntoa packet none = none
sender_at inet_ntoa packet (some remote) = some (sender inet_ntoa packet remote)

-- The result, `*p_remote` and the data for each answer of `select` and `recvfrom`
pub data Got (inet_ntoa : ℕ → List ℕ) (datalen : ℕ) (p_remote : Option NetworkAddr)
    (p_data : List ℕ) : Selected → Option Packet → ℤ × Option NetworkAddr × List ℕ → Type 0 where
  time_over :
      {got : Option Packet}
      → Got inet_ntoa datalen p_remote p_data timed_out got (pos 0, p_remote, p_data)
  signal_came :
      {got : Option Packet}
      → Got inet_ntoa datalen p_remote p_data select_interrupted got (negsuc 2, p_remote, p_data)
  no_select :
      {got : Option Packet}
      → Got inet_ntoa datalen p_remote p_data select_failed got (negsuc 3, p_remote, p_data)
  no_packet : Got inet_ntoa datalen p_remote p_data readable none (minus_one, p_remote, p_data)
  no_byte :
      {packet : Packet}
      → (datalen ≡ 0) ⊎ (packet.bytes ≡ [])
      → Got inet_ntoa datalen p_remote p_data readable (some packet) (minus_one, p_remote, p_data)
  came :
      {packet : Packet}
      → 0 < datalen
      → packet.bytes ≢ []
      → Got inet_ntoa datalen p_remote p_data readable (some packet) (
        pos (length (take datalen packet.bytes)),
        sender_at inet_ntoa packet p_remote,
        memcpy p_data 0 (take datalen packet.bytes),
      )

empty_take : (n : ℕ) (s : List ℕ) → ltb 0 (length (take n s)) ≡ false → (n ≡ 0) ⊎ (s ≡ [])
empty_take zero s e = inl refl
empty_take (suc n) [] e = inr refl
empty_take (suc n) (b ∷ s) e = absurd (ground (arith, e))

filled_take : (n : ℕ) (s : List ℕ) → ltb 0 (length (take n s)) ≡ true → (0 < n) × (s ≢ [])
filled_take zero s e = absurd cc
filled_take (suc n) [] e = absurd cc
filled_take (suc n) (b ∷ s) e = (omega arith, λ t. cc)

after_recvfrom-Got :
    (inet_ntoa : ℕ → List ℕ) (got : Option Packet) (datalen : ℕ) (p_remote : Option NetworkAddr)
    (p_data : List ℕ)
    → Got inet_ntoa datalen p_remote p_data readable got
        (after_recvfrom inet_ntoa got datalen p_remote p_data)
unfolding after_recvfrom
after_recvfrom-Got inet_ntoa none datalen p_remote p_data = no_packet
after_recvfrom-Got inet_ntoa (some packet) datalen none p_data =
    elim (Bool-cases (ltb 0 (length (take datalen packet.bytes)))) [
      | inl filled ↦
          let (room, bytes) = filled_take datalen packet.bytes filled in rw filled (came room bytes)
      | inr empty ↦ rw empty (no_byte (empty_take datalen packet.bytes empty))
    ]
after_recvfrom-Got inet_ntoa (some packet) datalen (some remote) p_data =
    elim (Bool-cases (ltb 0 (length (take datalen packet.bytes)))) [
      | inl filled ↦
          let (room, bytes) = filled_take datalen packet.bytes filled in rw filled (came room bytes)
      | inr empty ↦ rw empty (no_byte (empty_take datalen packet.bytes empty))
    ]

-- The result of `HAL_UDP_recvfrom` for each answer of its calls: 0 when the time is over, -3 when a signal
-- interrupts `select`, -4 when it fails, -1 when `recvfrom` fails or gives no byte, each with the
-- caller's data as it was; and for a packet the number of its bytes, at most `datalen`, with the bytes at
-- the start of the buffer and the sender in `*p_remote`, unless that is NULL.
pub udp_recvfrom-Got :
    (inet_ntoa : ℕ → List ℕ) (selected : Selected) (got : Option Packet) (datalen : ℕ)
    (p_remote : Option NetworkAddr) (p_data : List ℕ)
    → Got inet_ntoa datalen p_remote p_data selected got
        (udp_recvfrom inet_ntoa selected got datalen p_remote p_data)
unfolding udp_recvfrom
udp_recvfrom-Got inet_ntoa readable got datalen p_remote p_data =
    after_recvfrom-Got inet_ntoa got datalen p_remote p_data
udp_recvfrom-Got inet_ntoa timed_out got datalen p_remote p_data = time_over
udp_recvfrom-Got inet_ntoa select_interrupted got datalen p_remote p_data = signal_came
udp_recvfrom-Got inet_ntoa select_failed got datalen p_remote p_data = no_select

-- A text that `strcpy` put into an array of at least its size is the text of the array.
text_of-strcpy :
    (buf s : List ℕ) → IsText s → length s < length buf → text_of (memcpy buf 0 (s ++ 0 ∷ [])) ≡ s
text_of-strcpy buf s t h =
    let rest : List ℕ = drop (length (s ++ 0 ∷ [])) buf in
    let copied : memcpy buf 0 (s ++ 0 ∷ []) ≡ s ++ (0 ∷ rest) =
      memcpy-start buf (s ++ 0 ∷ []) (omega (arith, length-append s (0 ∷ [])))
      ∙ append_assoc s (0 ∷ []) rest in
    ap text_of copied ∙ text_of-zero s rest t

recvfrom_sender :
    (inet_ntoa : ℕ → List ℕ) (packet : Packet) (remote : NetworkAddr) (p_data : List ℕ)
    (datalen : ℕ)
    → 0 < length packet.bytes
    → 0 < datalen
    → (udp_recvfrom inet_ntoa readable (some packet) datalen (some remote) p_data).1
      ≡ some (sender inet_ntoa packet remote)
unfolding udp_recvfrom after_recvfrom
recvfrom_sender inet_ntoa packet remote p_data datalen hb hd =
    let received : ltb 0 (length (take datalen packet.bytes)) ≡ true =
      lt→ltb 0 (length (take datalen packet.bytes))
        (omega (arith, length-take datalen packet.bytes)) in
    rw received refl

sends_all :
    (ip port : ℕ) (answer : List ℕ) (network : List Packet)
    → 0 < length answer
    → send_resolved (some ip) readable (some (length answer)) port answer (length answer) network
      ≡ (pos (length answer), record { ip = ip; port = port; bytes = answer } ∷ network)
unfolding send_resolved send_when_ready after_sendto
sends_all ip port answer network h =
    let all : take (length answer) (take (length answer) answer) ≡ answer =
      ap (take (length answer)) (take_all (length answer) answer (omega arith))
      ∙ take_all (length answer) answer (omega arith) in
    rw (lt→ltb 0 (length answer) h, all) refl

-- When `inet_aton` reads the text that `inet_ntoa` writes for the sender of a packet, and the text and its
-- zero fit 16 bytes: an answer that is sent to the address that `HAL_UDP_recvfrom` stored for the packet
-- goes to its sender, with all its bytes, and `HAL_UDP_sendto` returns their number. The packet and the
-- answer are not empty, and the system takes the answer whole.
pub udp_sendto-udp_recvfrom :
    (inet_ntoa : ℕ → List ℕ) (inet_aton gethostbyname : List ℕ → Option ℕ) (packet : Packet)
    (remote : NetworkAddr) (p_data answer : List ℕ) (datalen : ℕ) (network : List Packet)
    → IsText (inet_ntoa packet.ip)
    → length (inet_ntoa packet.ip) < 16
    → inet_aton (inet_ntoa packet.ip) ≡ some packet.ip
    → length remote.addr ≡ 16
    → 0 < length packet.bytes
    → 0 < datalen
    → 0 < length answer
    → (reply : NetworkAddr) × ((udp_recvfrom inet_ntoa readable
          (some packet)
          datalen
          (some remote)
          p_data).1
        ≡ some reply)
      × (udp_sendto inet_aton gethostbyname readable
            (some (length answer))
            reply
            answer
            (length answer)
            network
          ≡ (
            pos (length answer),
            record { ip = packet.ip; port = packet.port; bytes = answer } ∷ network,
          ))
unfolding udp_sendto
udp_sendto-udp_recvfrom inet_ntoa inet_aton gethostbyname packet remote p_data answer datalen
      network texts short reads size hb hd ha =
    let name : text_of (sender inet_ntoa packet remote).addr ≡ inet_ntoa packet.ip =
      text_of-strcpy remote.addr (inet_ntoa packet.ip) texts (omega (arith, short, size)) in
    let known : inet_aton (text_of (sender inet_ntoa packet remote).addr) ≡ some packet.ip =
      ap inet_aton name ∙ reads in
    (
      sender inet_ntoa packet remote,
      recvfrom_sender inet_ntoa packet remote p_data datalen hb hd,
      ap
            (λ a.
              send_resolved
                (resolve a (gethostbyname (text_of (sender inet_ntoa packet remote).addr))) readable
                (some (length answer)) packet.port answer (length answer) network)
            known
          ∙ sends_all packet.ip packet.port answer network ha,
    )
