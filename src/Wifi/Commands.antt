-- ===== src/Wifi/Commands.antt =====
-- The HAL_Awss functions that run shell commands. A command is the text that `system` gets; what
-- `system` returns is not used.
use clink3_wiki.Prelude.{
  ℕ, ◌-◌, ◌*◌, List, [], ◌∷◌, ◌++◌, Bool, ltb, ◌==◌, if◌then◌else◌, take, length, replicate,
}
use clink3_wiki.Prelude.Int.{ℤ}
use clink3_wiki.Prelude.Decimal.{decimal_int}
use clink3_wiki.Prelude.Buffer.{memcpy, strlen}
use clink3_wiki.Prelude.Text.{codes}

abbrev pub Command : Type 0
Command = List ℕ

-- `snprintf` into a buffer of `size` bytes, as a C string
unfoldable pub snprintf : ℕ → List ℕ → Command
snprintf size text = take (size - 1) text

-- The C string at the start of an array
abbrev pub text_of : List ℕ → List ℕ
text_of buf = take (strlen buf) buf

abbrev pub wifi_name : List ℕ
wifi_name = codes "linkkit"

-- `sizeof(g_opened_ap)`
abbrev pub opened_ap_size : ℕ
opened_ap_size = 36

-- `HAL_Awss_Close_Ap`, from and to the array `g_opened_ap`
unfoldable pub awss_close_ap : List ℕ → List Command × List ℕ
unfolding snprintf
awss_close_ap opened_ap = (
  snprintf 256 (codes "nmcli connection down " ++ text_of opened_ap) ∷ [],
  replicate opened_ap_size 0,
)

-- The commands of `HAL_Awss_Close_Monitor`
unfoldable pub close_monitor_commands : List ℕ → List Command
unfolding snprintf
close_monitor_commands ifname =
    snprintf 256 (codes "ifconfig " ++ (ifname ++ codes " down"))
    ∷ snprintf 256 (codes "iwconfig " ++ (ifname ++ codes " mode managed"))
    ∷ snprintf 256 (codes "ifconfig " ++ (ifname ++ codes " up"))
    ∷ []

-- The commands of `HAL_Awss_Open_Monitor`
unfoldable pub open_monitor_commands : List ℕ → List Command
unfolding snprintf
open_monitor_commands ifname =
    snprintf 256 (codes "ifconfig " ++ (ifname ++ codes " down"))
    ∷ snprintf 256 (codes "iwconfig " ++ (ifname ++ codes " mode monitor"))
    ∷ snprintf 256 (codes "ifconfig " ++ (ifname ++ codes " up"))
    ∷ []

-- `HAL_Awss_Switch_Channel`: the command, and whether the assertion on what `system` returns holds
unfoldable pub awss_switch_channel : Bool → List ℕ → ℤ → Command × Bool
unfolding snprintf
awss_switch_channel returns_zero ifname primary_channel = (
  snprintf 255
      (codes "iwconfig " ++ (ifname ++ (codes " channel " ++ decimal_int primary_channel))),
  returns_zero,
)

-- The security commands of `HAL_Awss_Connect_Ap`. Without a password the two arguments of
-- "nmcli connection modify %s wifi-sec.key-mgmt %s" change places.
unfoldable pub security_commands : List ℕ → List Command
unfolding snprintf
security_commands passwd =
    if strlen passwd == 0
    then snprintf 128 (
        codes "nmcli connection modify "
        ++ (codes "none" ++ (codes " wifi-sec.key-mgmt " ++ wifi_name)))
      ∷ []
    else snprintf 128 (
        codes "nmcli connection modify "
        ++ (wifi_name ++ (codes " wifi-sec.key-mgmt " ++ codes "wpa-psk")))
      ∷ snprintf 128
          (codes "nmcli connection modify " ++ (wifi_name ++ (codes " wifi-sec.psk " ++ passwd)))
      ∷ []

-- The commands of `HAL_Awss_Connect_Ap`, which returns 0. `ssid` and `passwd` are C strings.
unfoldable pub awss_connect_ap : List ℕ → List ℕ → List ℕ → List Command
unfolding snprintf security_commands
awss_connect_ap ifname ssid passwd =
    snprintf 128 (codes "nmcli connection down " ++ wifi_name)
    ∷ snprintf 128 (codes "nmcli connection delete " ++ wifi_name)
    ∷ snprintf 128 (
        codes "nmcli connection add con-name "
        ++ (wifi_name ++ (codes " ifname " ++ (ifname ++ (codes " type wifi ssid " ++ ssid)))))
    ∷ (security_commands passwd ++ snprintf 128 (codes "nmcli connection up " ++ wifi_name) ∷ [])

-- `ap_passwd`, which is always empty
abbrev pub ap_passwd : List ℕ
ap_passwd = codes ""

-- The mode commands of `HAL_Awss_Open_Ap`
unfoldable pub mode_commands : List ℕ → List Command
unfolding snprintf
mode_commands ap_ssid =
    if strlen ap_passwd == 0
    then snprintf 256 (
        codes "nmcli connection modify "
        ++ (ap_ssid ++ codes " 802-11-wireless.mode ap ipv4.method shared"))
      ∷ []
    else snprintf 256 (
        codes "nmcli connection modify "
        ++ (ap_ssid
            ++ (codes
                  " 802-11-wireless.mode ap 802-11-wireless-security.key-mgmt wpa-psk ipv4.method shared 802-11-wireless-security.psk "
                ++ ap_passwd)))
      ∷ []

-- `HAL_Awss_Open_Ap`, which returns 0: the commands, and `g_opened_ap` afterwards. Its arguments
-- `passwd`, `beacon_interval` and `hide` are not used.
unfoldable pub awss_open_ap : List ℕ → List ℕ → List ℕ → List Command × List ℕ
unfolding snprintf mode_commands
awss_open_ap ifname ssid opened_ap = (
  snprintf 256 (codes "ifconfig " ++ (ifname ++ codes " down"))
      ∷ snprintf 256 (codes "nmcli connection down " ++ ssid)
      ∷ snprintf 256 (codes "nmcli connection delete " ++ wifi_name)
      ∷ snprintf 256 (codes "nmcli connection delete " ++ ssid)
      ∷ snprintf 256 (
          codes "nmcli connection add con-name "
          ++ (ssid
              ++ (codes " type wifi ifname "
                  ++ (ifname ++ (codes " autoconnect yes ssid " ++ (ssid ++ codes " mode ap"))))))
      ∷ (mode_commands ssid ++ snprintf 256 (codes "nmcli connection up " ++ ssid) ∷ []),
  if ltb (length ssid) opened_ap_size then memcpy opened_ap 0 ssid else opened_ap,
)

-- The commands of `do_forget_ssid_passwd` of the example, which connects anew
unfoldable pub do_forget_ssid_passwd : List Command
unfolding snprintf
do_forget_ssid_passwd =
    snprintf 128 (codes "nmcli connection down " ++ wifi_name)
    ∷ snprintf 128 (codes "nmcli connection delete " ++ wifi_name)
    ∷ []

-- `HAL_Awss_Get_Channelscan_Interval_Ms`
abbrev channelscan_interval_ms : ℕ
channelscan_interval_ms = 250

-- `HAL_Awss_Get_Timeout_Interval_Ms`
abbrev timeout_interval_ms : ℕ
timeout_interval_ms = 3 * 60 * 1000
