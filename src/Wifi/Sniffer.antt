-- ===== src/Wifi/Sniffer.antt =====
-- `func_Sniffer`, the thread that reads frames, and the flag that stops it.
use clink3_wiki.Prelude.{
  ℕ, ◌+◌, ◌-◌, ◌*◌, List, [], ◌∷◌, Bool, false, Option, none, some, ltb, leb, if◌then◌else◌, take,
  drop, length, get_or,
}
use clink3_wiki.Prelude.Int.{ℤ, pos, negsuc, minus_one}
use clink3_wiki.Prelude.Buffer.{memcpy}
use clink3_wiki.Tcp.Establish.{close}
use clink3_wiki.Wifi.Commands.{Command, close_monitor_commands, open_monitor_commands}

-- MAX_REV_BUFFER
abbrev pub max_rev_buffer : ℕ
max_rev_buffer = 8000

-- `it_len` of `struct ieee80211_radiotap_header`: two bytes at offset 2, as a little-endian machine
-- reads them
unfoldable pub it_len : List ℕ → ℕ
it_len buf = get_or buf 2 0 + 256 * get_or buf 3 0

-- One turn of the loop: `s_enable_sniffer` at the test, and the packet that `recvfrom` gets or
-- `none` for -1
pub record Round : Type 0 where
  pub enabled : Bool
  pub got : Option (List ℕ)

-- `rev_buffer` behind `recvfrom`
abbrev pub received : Option (List ℕ) → List ℕ → List ℕ
received none buf = buf
received (some bytes) buf = memcpy buf 0 bytes

-- `rev_num`
abbrev pub rev_num : Option (List ℕ) → ℤ
rev_num none = minus_one
rev_num (some bytes) = pos (length bytes)

-- The frame that the callback gets: what lies behind the radiotap header
unfoldable pub frame : ℤ → List ℕ → Option (List ℕ)
unfolding it_len
frame (negsuc n) buf = none
frame (pos n) buf =
    let skip_len = it_len buf in
    if leb max_rev_buffer skip_len
    then none
    else (if ltb skip_len n then some (take (n - skip_len) (drop skip_len buf)) else none)

abbrev pub with_frame : Option (List ℕ) → Option (List (List ℕ)) → Option (List (List ℕ))
with_frame f none = none
with_frame none (some frames) = some frames
with_frame (some f) (some frames) = some (f ∷ frames)

-- The frames that the callback gets until the loop ends; `none` while it has not ended
unfoldable pub sniff_loop : List Round → List ℕ → Option (List (List ℕ))
unfolding frame
sniff_loop [] buf = none
sniff_loop (round ∷ rounds) buf =
    let buf' = received round.got buf in
    if round.enabled
    then with_frame (frame (rev_num round.got) buf') (sniff_loop rounds buf')
    else some []

-- What `socket`, the two `ioctl`, `bind`, and the `ioctl` for the flags return
pub record SnifferCalls : Type 0 where
  pub socket : Option ℕ
  pub gets_index : Bool
  pub binds : Bool
  pub gets_flags : Bool
  pub sets_flags : Bool

-- An early return closes the socket.
abbrev pub give_up : ℕ → List ℕ → Option (List (List ℕ) × List ℕ)
give_up fd fds = some ([], close fd (fd ∷ fds))

-- The end of the thread, with the frames and the open descriptors
abbrev pub finish_sniffer : ℕ → List ℕ → Option (List (List ℕ)) → Option (List (List ℕ) × List ℕ)
finish_sniffer fd fds none = none
finish_sniffer fd fds (some frames) = some (frames, close fd (fd ∷ fds))

-- `func_Sniffer`: the frames it passes on and the open descriptors at its end
unfoldable pub func_sniffer :
    SnifferCalls → List ℕ → List Round → List ℕ → List ℕ → Option (List (List ℕ) × List ℕ)
func_sniffer calls ifname rounds buf fds =
    if ltb 15 (length ifname) then some ([], fds) else elim calls.socket [
      | none ↦ some ([], fds)
      | some fd ↦
          if calls.gets_index
          then (if calls.binds
              then (if calls.gets_flags
                  then (if calls.sets_flags
                      then finish_sniffer fd fds (sniff_loop rounds buf)
                      else give_up fd fds)
                  else give_up fd fds)
              else give_up fd fds)
          else give_up fd fds
    ]

-- `stop_sniff`: the new `s_enable_sniffer`
abbrev pub stop_sniff : Bool → Bool
stop_sniff enabled = false

-- `HAL_Awss_Open_Monitor` and `HAL_Awss_Close_Monitor`
pub data MonitorCall : Type 0 where
  open_monitor : MonitorCall
  close_monitor : MonitorCall

-- The commands of a call, and `s_enable_sniffer` afterwards
unfoldable pub monitor_call : List ℕ → MonitorCall → Bool → List Command × Bool
monitor_call ifname open_monitor enabled = (open_monitor_commands ifname, enabled)
monitor_call ifname close_monitor enabled = (close_monitor_commands ifname, stop_sniff enabled)

-- The flag behind a sequence of calls
unfoldable pub monitor_calls : List ℕ → List MonitorCall → Bool → Bool
monitor_calls ifname [] enabled = enabled
monitor_calls ifname (call ∷ calls) enabled =
    monitor_calls ifname calls (monitor_call ifname call enabled).1
