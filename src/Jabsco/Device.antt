-- ===== src/Jabsco/Device.antt =====
-- The identity of the device and its Wi-Fi: `HAL_Get...`, `HAL_Wifi_Get_Mac` and the HAL_Awss functions.
use clink3_wiki.Prelude.{
  ℕ, List, [], ◌∷◌, ◌++◌, Bool, true, false, Option, none, some, if◌then◌else◌, length,
}
use clink3_wiki.Prelude.Int.{ℤ, pos, minus_one}
use clink3_wiki.Prelude.Decimal.{decimal_int}
use clink3_wiki.Prelude.Buffer.{memcpy}
use clink3_wiki.Prelude.Text.{codes}
use clink3_wiki.Wifi.Commands.{Command, snprintf}
use clink3_wiki.Wifi.Sniffer.{Round, sniff_loop, finish_sniffer}
use clink3_wiki.Os.Identity.{memset_zero}

-- `memset` of the array, `memcpy` of the text, and the length of the text
abbrev pub fixed_text : List ℕ → ℕ → List ℕ → ℕ × List ℕ
fixed_text text max buf = (length text, memcpy (memset_zero buf max) 0 text)

unfoldable pub fixed_device_name : ℕ → List ℕ → ℕ × List ℕ
fixed_device_name max buf = fixed_text (codes "test_06") max buf

unfoldable pub fixed_device_secret : ℕ → List ℕ → ℕ × List ℕ
fixed_device_secret max buf = fixed_text (codes "wQ1xOzFH3kLdjCTLfi8Xbw4otRz0lHoq") max buf

unfoldable pub fixed_product_key : ℕ → List ℕ → ℕ × List ℕ
fixed_product_key max buf = fixed_text (codes "a1X2bEnP82z") max buf

unfoldable pub fixed_product_secret : ℕ → List ℕ → ℕ × List ℕ
fixed_product_secret max buf = fixed_text (codes "7jluWm1zql7bt8qK") max buf

-- `HAL_GetFirmwareVersion` writes no zero.
unfoldable pub fixed_firmware_version : List ℕ → ℕ × List ℕ
fixed_firmware_version version = (1, memcpy version 0 (codes "19"))

-- `HAL_Wifi_Get_Mac`
unfoldable pub fixed_mac : List ℕ → List ℕ
fixed_mac mac_str = memcpy mac_str 0 (codes "18:FE:34:12:33:44" ++ 0 ∷ [])

-- `suppconf`, from `snprintf` into 254 of its 255 bytes
unfoldable pub supplicant_config : List ℕ → List ℕ → List ℕ
unfolding snprintf
supplicant_config ssid passwd = snprintf 254 (
    codes "network={\n    ssid=\""
    ++ (ssid
        ++ (codes "\" \n    key_mgmt=WPA-PSK\n    scan_ssid=1\n    psk=\""
            ++ (passwd ++ codes "\"\n}\n"))))

-- `HAL_Awss_Connect_Ap`, given whether the file can be opened: the result, the file and the commands
unfoldable pub connect_with_supplicant : Bool → List ℕ → List ℕ → List ℕ → ℤ × List ℕ × List Command
unfolding supplicant_config
connect_with_supplicant false ssid passwd conf = (minus_one, conf, [])
connect_with_supplicant true ssid passwd conf = (
  pos 0,
  supplicant_config ssid passwd,
  codes "lzbox wifictl on; sleep 5" ∷ codes "lzbox wifictl dhcp; sleep 3;" ∷ [],
)

-- Commands with an assertion behind each one, given which of them return 0: those that run, and whether
-- every assertion holds
abbrev pub asserted : List Command → List Bool → List Command × Bool
asserted [] oks = ([], true)
asserted (c ∷ commands) [] = (c ∷ [], false)
asserted (c ∷ commands) (ok ∷ oks) =
    let rest = asserted commands oks in if ok then (c ∷ rest.0, rest.1) else (c ∷ [], false)

-- `HAL_Awss_Open_Monitor` before `start_sniff`
unfoldable pub wlan0_monitor : List Bool → List Command × Bool
wlan0_monitor oks =
    asserted
      (codes "ifconfig wlan0 down; ifconfig wlan0 up"
        ∷ codes "iwconfig wlan0 mode monitor"
        ∷ codes "echo \"10 1 1\" > /proc/net/rtl8188fu/wlan0/monitor"
        ∷ [])
      oks

-- `HAL_Awss_Close_Monitor`: the command and the new `s_enable_sniffer`
unfoldable pub wlan0_managed : Bool → Command × Bool
wlan0_managed enabled = (codes "iwconfig wlan0 mode managed", false)

-- `HAL_Awss_Switch_Channel`: the command, and whether the assertion holds
unfoldable pub wlan0_channel : Bool → ℤ → Command × Bool
unfolding snprintf
wlan0_channel returns_zero primary_channel =
    (snprintf 255 (codes "iwconfig wlan0 channel " ++ decimal_int primary_channel), returns_zero)

-- `func_Sniffer`: the frames it passes on and the open descriptors at its end
unfoldable pub wlan0_sniffer :
    Option ℕ → List Round → List ℕ → List ℕ → Option (List (List ℕ) × List ℕ)
wlan0_sniffer none rounds buf fds = some ([], fds)
wlan0_sniffer (some sock) rounds buf fds = finish_sniffer sock fds (sniff_loop rounds buf)
