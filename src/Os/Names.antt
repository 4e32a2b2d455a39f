-- ===== src/Os/Names.antt =====
-- The texts that `HAL_Wifi_Get_Ap_Info` gives, and the descriptors that `HAL_Wifi_Get_IP` and
-- `HAL_Wifi_Get_Mac` leave.
use clink3_wiki.Prelude.{
  ℕ, ◌+◌, ◌-◌, ◌%◌, ◌≤◌, ◌<◌, ◌≡◌, inl, inr, refl, ap, ◌∙◌, List, [], ◌∷◌, ◌++◌, append_assoc, true,
  Option, none, some, ltb, leb, lt→ltb, le→leb, lt→leb, Bool-cases, take, drop, length,
  length-append, arith,
}
use clink3_wiki.Prelude.Buffer.{IsText, memcpy, memcpy-start, memcpy_lem}
use clink3_wiki.Prelude.Text.{codes}
use clink3_wiki.Tcp.Outcome.{close_newest}
use clink3_wiki.Wifi.Commands.{text_of}
use clink3_wiki.Wifi.AccessPoint.{text_of-zero}
use clink3_wiki.Os.Network.{
  read_string_from_file, get_item, wifi_get_ap_info, chosen_interface, ip_answer, ip_of_interface,
  wifi_get_ip, wifi_get_mac,
}

-- A line of text replaces its newline by a zero.
line_end :
    (dst s : List ℕ)
    → length s + 1 ≤ length dst
    → memcpy (memcpy dst 0 (s ++ 10 ∷ [])) (length s) (0 ∷ [])
      ≡ s ++ 0 ∷ drop (length (s ++ 10 ∷ [])) dst
line_end dst s h =
    let rest : List ℕ = drop (length (s ++ 10 ∷ [])) dst in
    ap (λ b. memcpy b (length s) (0 ∷ []))
      (memcpy-start dst (s ++ 10 ∷ []) (omega (arith, h, length-append s (10 ∷ [])))
        ∙ append_assoc s (10 ∷ []) rest)
    ∙ memcpy_lem (length s) s (10 ∷ rest) (0 ∷ []) refl (omega arith)

-- A file with a line of text that fits gives the text.
read_string-line :
    (dst file s : List ℕ) (max : ℕ)
    → IsText s
    → 0 < length s
    → length s + 1 ≤ max
    → max ≤ 256
    → max ≤ length dst
    → text_of (read_string_from_file dst file max (some (s ++ 10 ∷ []))).0 ≡ s
unfolding read_string_from_file
read_string-line dst file s max t positive small byte room =
    let size : length (s ++ 10 ∷ []) ≡ length s + 1 = length-append s (10 ∷ []) in
    let two : ltb 1 (length s + 1) ≡ true = lt→ltb 1 (length s + 1) (omega (arith, positive)) in
    let fits : leb (length s + 1) max ≡ true = le→leb (length s + 1) max small in
    let last : (length s + 1 - 1) % 256 ≡ length s = omega (arith, small, byte) in
    rw (size, two, fits, last)
      (ap text_of (line_end dst s (omega (arith, small, room)))
        ∙ text_of-zero s (drop (length (s ++ 10 ∷ [])) dst) t)

-- A file that is too long gives the empty text.
read_string-long :
    (dst file content : List ℕ) (max : ℕ)
    → max < length content
    → 0 < length dst
    → text_of (read_string_from_file dst file max (some content)).0 ≡ []
unfolding read_string_from_file
read_string-long [] file content max long room = absurd (omega arith)
read_string-long (d ∷ dst) file content max long room = elim (Bool-cases (ltb 1 (length content))) [
  | inl two ↦ rw (two, lt→leb (length content) max long) refl
  | inr one ↦ rw one refl
]

-- `HAL_Wifi_Get_Ap_Info` gives the network name and the password of their files, for lines of text that fit
-- arrays of at most 256 bytes. Of the address of the access point it gives nothing: a file of more than
-- six bytes leaves the empty text, and an address as text has 17.
pub wifi_get_ap_info-texts :
    (max_ssid_len max_passwd_len : ℕ) (ssid passwd address name password bssid : List ℕ)
    → IsText name
    → IsText password
    → 0 < length name
    → 0 < length password
    → length name + 1 ≤ max_ssid_len
    → length password + 1 ≤ max_passwd_len
    → max_ssid_len ≤ 256
    → max_passwd_len ≤ 256
    → max_ssid_len ≤ length ssid
    → max_passwd_len ≤ length passwd
    → 6 < length address
    → 0 < length bssid
    → (ssid' passwd' bssid' : List ℕ) × ((wifi_get_ap_info max_ssid_len max_passwd_len
          (record {
            ssid = some (name ++ 10 ∷ []);
            passwd = some (password ++ 10 ∷ []);
            bssid = some address;
          })
          (record { ssid = some ssid; passwd = some passwd; bssid = some bssid })).0
        ≡ record { ssid = some ssid'; passwd = some passwd'; bssid = some bssid' })
      × (text_of ssid' ≡ name)
      × (text_of passwd' ≡ password)
      × (text_of bssid' ≡ [])
unfolding wifi_get_ap_info get_item
wifi_get_ap_info-texts m n ssid passwd address name password bssid t u h k hm kn bm bn rm rn long
      room =
    (
      (read_string_from_file ssid (codes "/tmp/ssid") m (some (name ++ 10 ∷ []))).0,
      (read_string_from_file passwd (codes "/tmp/passphrase") n (some (password ++ 10 ∷ []))).0,
      (read_string_from_file bssid (codes "/tmp/bssid") 6 (some address)).0,
      refl,
      read_string-line ssid (codes "/tmp/ssid") name m t h hm bm rm,
      read_string-line passwd (codes "/tmp/passphrase") password n u k kn bn rn,
      read_string-long bssid (codes "/tmp/bssid") address 6 long room,
    )

-- No socket stays open behind `HAL_Wifi_Get_IP`.
ip_of_interface-fds :
    (inet_ntoa : ℕ → List ℕ) (ioctl : List ℕ → Option ℕ) (socket : Option ℕ)
    (ifname : Option (List ℕ)) (ip_str fds : List ℕ)
    → (ip_of_interface inet_ntoa ioctl socket ifname ip_str fds).2 ≡ fds
ip_of_interface-fds inet_ntoa ioctl socket none ip_str fds = refl
ip_of_interface-fds inet_ntoa ioctl none (some ifname) ip_str fds = refl
ip_of_interface-fds inet_ntoa ioctl (some sock) (some ifname) ip_str fds =
    answer-fds (ioctl (take 15 ifname))
  where
    answer-fds : (a : Option ℕ) → (ip_answer inet_ntoa sock a ip_str fds).2 ≡ fds
    answer-fds none = close_newest sock fds
    answer-fds (some s_addr) = close_newest sock fds

wifi_get_mac-fds :
    (socket : Option ℕ) (hwaddr : Option (List ℕ)) (mac_str fds : List ℕ)
    → (wifi_get_mac socket hwaddr mac_str fds).1 ≡ fds
unfolding wifi_get_mac
wifi_get_mac-fds none hwaddr mac_str fds = refl
wifi_get_mac-fds (some fd) none mac_str fds = close_newest fd fds
wifi_get_mac-fds (some fd) (some bytes) mac_str fds = close_newest fd fds

-- `HAL_Wifi_Get_IP` and `HAL_Wifi_Get_Mac` leave the open descriptors as they were, whatever their calls
-- return.
pub wifi_get-fds :
    (inet_ntoa : ℕ → List ℕ) (ioctl : List ℕ → Option ℕ) (socket : Option ℕ)
    (ifname fallback : Option (List ℕ)) (hwaddr : Option (List ℕ)) (text fds : List ℕ)
    → ((wifi_get_ip inet_ntoa ioctl socket ifname fallback text fds).2 ≡ fds)
      × ((wifi_get_mac socket hwaddr text fds).1 ≡ fds)
unfolding wifi_get_ip
wifi_get-fds inet_ntoa ioctl socket ifname fallback hwaddr text fds = (
  ip_of_interface-fds inet_ntoa ioctl socket (chosen_interface ifname fallback) text fds,
  wifi_get_mac-fds socket hwaddr text fds,
)
