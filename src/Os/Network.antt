-- ===== src/Os/Network.antt =====
-- What the device knows of its network: `read_string_from_file`, `HAL_Wifi_Get_Ap_Info`,
-- `_get_default_routing_ifname`, `HAL_Wifi_Get_IP`, `HAL_Wifi_Get_Mac` and `HAL_Sys_Net_Is_Ready`.
use clink3_wiki.Prelude.{
  ℕ, ◌+◌, ◌-◌, ◌/◌, ◌%◌, List, [], ◌∷◌, ◌++◌, Bool, true, false, ◌&&◌, ◌||◌, Option, none, some,
  ltb, leb, ◌==◌, if◌then◌else◌, take, length,
}
use clink3_wiki.Prelude.Buffer.{memcpy, strlen}
use clink3_wiki.Prelude.Text.{codes}
use clink3_wiki.Tcp.Establish.{close}
use clink3_wiki.Wifi.Commands.{Command, snprintf}
use clink3_wiki.Os.Identity.{strncpy}

-- `read_string_from_file`, given what the file has, or `none` when it cannot be opened: the array and
-- the commands. `pos` is an `unsigned char`.
unfoldable pub read_string_from_file : List ℕ → List ℕ → ℕ → Option (List ℕ) → List ℕ × List Command
read_string_from_file dst file dst_max_len none = (dst, [])
read_string_from_file dst file dst_max_len (some content) =
    let size = length content in
    let pos = (size - 1) % 256 in
    let removal = snprintf 256 (codes "rm " ++ (file ++ codes " -f")) in
    if ltb 1 size && leb size dst_max_len
    then (memcpy (memcpy dst 0 content) pos (0 ∷ []), removal ∷ [])
    else (memcpy dst 0 (0 ∷ []), removal ∷ [])

-- The part of `HAL_Wifi_Get_Ap_Info` for one of its arrays: the command that makes the file, and the
-- array and the commands behind it. A pointer that is NULL is `none`.
unfoldable pub get_item :
    Command → List ℕ → ℕ → Option (List ℕ) → Option (List ℕ) → Option (List ℕ) × List Command
unfolding read_string_from_file
get_item command file max none content = (none, [])
get_item command file max (some dst) content =
    let (dst', removal) = read_string_from_file dst file max content in
    (some dst', command ∷ removal)

-- The three arrays
pub record ApInfo : Type 0 where
  pub ssid : Option (List ℕ)
  pub passwd : Option (List ℕ)
  pub bssid : Option (List ℕ)

-- `HAL_Wifi_Get_Ap_Info`, which returns 0, with what the three files have. ETH_ALEN is 6; the other two
-- sizes are defined outside the repository.
unfoldable pub wifi_get_ap_info : ℕ → ℕ → ApInfo → ApInfo → ApInfo × List Command
unfolding get_item
wifi_get_ap_info max_ssid_len max_passwd_len files info =
    let (ssid, one) =
      get_item (codes "wpa_cli status | grep ^ssid | sed 's/^ssid=//g' > /tmp/ssid")
        (codes "/tmp/ssid") max_ssid_len info.ssid files.ssid in
    let (passwd, two) =
      get_item
        (codes "wpa_cli status | grep ^passphrase | sed 's/^passphrase=//g' > /tmp/passphrase")
        (codes "/tmp/passphrase") max_passwd_len info.passwd files.passwd in
    let (bssid, three) =
      get_item (codes "wpa_cli status | grep ^bssid | sed 's/^bssid=//g' > /tmp/bssid")
        (codes "/tmp/bssid") 6 info.bssid files.bssid in
    (record { ssid = ssid; passwd = passwd; bssid = bssid }, one ++ (two ++ three))

-- What `sscanf` reads in a line of /proc/net/route
pub record Route : Type 0 where
  pub iface : List ℕ
  pub destination : ℕ
  pub mask : ℕ

-- The loop over the lines; `none` for one that `sscanf` does not read
unfoldable pub find_default : List (Option Route) → Option (List ℕ)
find_default [] = none
find_default (none ∷ lines) = find_default lines
find_default (some route ∷ lines) =
    let rest = find_default lines in
    if route.destination == 0 && route.mask == 0 then some route.iface else rest

abbrev pub named_interface : List ℕ → ℕ → Option (List ℕ) → Option (List ℕ)
named_interface ifname size none = none
named_interface ifname size (some iface) = some (strncpy ifname iface (size - 1))

-- `_get_default_routing_ifname`, given whether the file can be opened, whether it has its first line, and
-- the lines behind it: the array, or `none` for NULL
unfoldable pub get_default_routing_ifname :
    Bool → Bool → List (Option Route) → List ℕ → ℕ → Option (List ℕ)
get_default_routing_ifname opens has_head lines ifname ifname_size =
    if opens && has_head then named_interface ifname ifname_size (find_default lines) else none

-- The interface that `HAL_Wifi_Get_IP` asks for: its argument, or else the one of the default route
abbrev pub chosen_interface : Option (List ℕ) → Option (List ℕ) → Option (List ℕ)
chosen_interface none fallback = fallback
chosen_interface (some ifname) fallback = if strlen ifname == 0 then fallback else some ifname

-- `(uint32_t)-1`
abbrev pub no_ip : ℕ
no_ip = 0xffffffff

abbrev pub ip_answer : (ℕ → List ℕ) → ℕ → Option ℕ → List ℕ → List ℕ → ℕ × List ℕ × List ℕ
ip_answer inet_ntoa sock none ip_str fds = (no_ip, ip_str, close sock (sock ∷ fds))
ip_answer inet_ntoa sock (some s_addr) ip_str fds =
    (s_addr, strncpy ip_str (inet_ntoa s_addr) 16, close sock (sock ∷ fds))

abbrev pub ip_of_interface :
    (ℕ → List ℕ)
    → (List ℕ → Option ℕ)
    → Option ℕ
    → Option (List ℕ)
    → List ℕ
    → List ℕ
    → ℕ × List ℕ × List ℕ
ip_of_interface inet_ntoa ioctl socket none ip_str fds = (no_ip, ip_str, fds)
ip_of_interface inet_ntoa ioctl none (some ifname) ip_str fds = (no_ip, ip_str, fds)
ip_of_interface inet_ntoa ioctl (some sock) (some ifname) ip_str fds =
    ip_answer inet_ntoa sock (ioctl (take 15 ifname)) ip_str fds

-- `HAL_Wifi_Get_IP`: its result, `ip_str` and the open descriptors. `fallback` is what
-- `_get_default_routing_ifname` returns, `ioctl` the address of an interface.
unfoldable pub wifi_get_ip :
    (ℕ → List ℕ)
    → (List ℕ → Option ℕ)
    → Option ℕ
    → Option (List ℕ)
    → Option (List ℕ)
    → List ℕ
    → List ℕ
    → ℕ × List ℕ × List ℕ
wifi_get_ip inet_ntoa ioctl socket ifname fallback ip_str fds =
    ip_of_interface inet_ntoa ioctl socket (chosen_interface ifname fallback) ip_str fds

-- A digit of %x
abbrev pub hex_digit : ℕ → ℕ
hex_digit n = if ltb n 10 then b'0' + n else b'a' + (n - 10)

-- `%2.2x:...`, with its final zero
unfoldable pub mac_text : List ℕ → List ℕ
mac_text [] = 0 ∷ []
mac_text (b ∷ []) = hex_digit (b / 16) ∷ hex_digit (b % 16) ∷ 0 ∷ []
mac_text (b ∷ c ∷ hwaddr) = hex_digit (b / 16) ∷ hex_digit (b % 16) ∷ b':' ∷ mac_text (c ∷ hwaddr)

-- `HAL_Wifi_Get_Mac`, given the socket and the six bytes that `ioctl` gets: the array, or `none` for
-- NULL, and the open descriptors
unfoldable pub wifi_get_mac :
    Option ℕ → Option (List ℕ) → List ℕ → List ℕ → Option (List ℕ) × List ℕ
wifi_get_mac none hwaddr mac_str fds = (none, fds)
wifi_get_mac (some fd) none mac_str fds = (some mac_str, close fd (fd ∷ fds))
wifi_get_mac (some fd) (some hwaddr) mac_str fds =
    (some (memcpy mac_str 0 (mac_text hwaddr)), close fd (fd ∷ fds))

-- Whether a text starts with another one
unfoldable pub starts_with : List ℕ → List ℕ → Bool
starts_with [] text = true
starts_with (c ∷ word) [] = false
starts_with (c ∷ word) (d ∷ text) = c == d && starts_with word text

-- `strstr`
unfoldable pub strstr : List ℕ → List ℕ → Bool
unfolding starts_with
strstr [] word = starts_with word []
strstr (c ∷ text) word = starts_with word (c ∷ text) || strstr text word

-- `HAL_Sys_Net_Is_Ready`, given what the command writes, or `none` when it does not start
unfoldable pub net_is_ready : Option (List ℕ) → ℕ
unfolding strstr
net_is_ready none = 0
net_is_ready (some output) = if strstr (take 1023 output) (codes "inet addr") then 1 else 0
