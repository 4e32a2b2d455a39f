-- ===== src/Jabsco/Provision.antt =====
-- The file that `HAL_Awss_Connect_Ap` writes, and the frames of its sniffer.
use clink3_wiki.Prelude.{
  ℕ, ◌≤◌, ◌≡◌, refl, List, ◌++◌, Option, none, some, All, Returns, length, length-append, arith,
}
use clink3_wiki.Prelude.Text.{codes}
use clink3_wiki.Wifi.Limits.{fits}
use clink3_wiki.Wifi.Sniffer.{Round, sniff_loop}
use clink3_wiki.Wifi.Frames.{Fits, FrameOf, Stops, sniff_loop-FrameOf, finish_sniffer-Sniffed}
use clink3_wiki.Jabsco.Device.{supplicant_config, wlan0_sniffer}

-- With a name of up to 32 characters and a password of up to 64 the configuration is whole, with its
-- closing brace.
supplicant_config_whole :
    (ssid passwd : List ℕ)
    → length ssid ≤ 32
    → length passwd ≤ 64
    → supplicant_config ssid passwd
      ≡ codes "network={\n    ssid=\""
        ++ (ssid
            ++ (codes "\" \n    key_mgmt=WPA-PSK\n    scan_ssid=1\n    psk=\""
                ++ (passwd ++ codes "\"\n}\n")))
unfolding supplicant_config
supplicant_config_whole ssid passwd hs hp =
    let head : List ℕ = codes "network={\n    ssid=\"" in
    let middle : List ℕ = codes "\" \n    key_mgmt=WPA-PSK\n    scan_ssid=1\n    psk=\"" in
    let tail : List ℕ = codes "\"\n}\n" in
    fits 254 (head ++ (ssid ++ (middle ++ (passwd ++ tail)))) (
      omega (
        arith,
        length-append head (ssid ++ (middle ++ (passwd ++ tail))),
        length-append ssid (middle ++ (passwd ++ tail)),
        length-append middle (passwd ++ tail),
        length-append passwd tail,
      ))

-- The sniffer of this port passes on only the ends of packets too, and closes its socket.
wlan0_sniffer-FrameOf :
    (socket : Option ℕ) (rounds : List Round) (buf fds : List ℕ)
    → length buf ≡ 8000
    → All Fits rounds
    → Stops rounds
    → Returns (λ r. All (FrameOf rounds) r.0 × (r.1 ≡ fds)) (wlan0_sniffer socket rounds buf fds)
unfolding wlan0_sniffer
wlan0_sniffer-FrameOf none rounds buf fds size fits stops = (tt, refl)
wlan0_sniffer-FrameOf (some sock) rounds buf fds size fits stops =
    finish_sniffer-Sniffed sock rounds fds (sniff_loop rounds buf)
      (sniff_loop-FrameOf rounds buf size fits stops)
