-- ===== src/Wifi/Tests.antt =====
-- A small access point and a sniffer that is stopped in its second round.
use clink3_wiki.Prelude.{
  ◌≢◌, ◌↔◌, take, ℕ, ◌≡◌, ◌≤◌, refl, List, [], ◌∷◌, ◌++◌, true, false, none, some, length,
  length-replicate, replicate, drop, All, inl, inr, Returns, subst, arith,
}
use clink3_wiki.Prelude.Text.{codes}
use clink3_wiki.Prelude.Buffer.{IsText}
use clink3_wiki.Wifi.Commands.{awss_connect_ap, awss_open_ap, awss_close_ap}
use clink3_wiki.Wifi.Limits.{connect_commands, awss_connect_ap-connect_commands}
use clink3_wiki.Wifi.AccessPoint.{no_ap, awss_close_ap-awss_open_ap, awss_close_ap_second}
use clink3_wiki.Wifi.Sniffer.{
  Round, SnifferCalls, func_sniffer, sniff_loop, close_monitor, open_monitor, monitor_calls,
  monitor_call,
}
use clink3_wiki.Wifi.Frames.{Fits, FrameOf, func_sniffer-FrameOf, close_monitor-sniff_loop}

awss_connect_ap-connect_commands_example :
    awss_connect_ap (codes "wlan0") (codes "home") (codes "secret")
    ≡ connect_commands (codes "wlan0") (codes "home") (codes "secret")
awss_connect_ap-connect_commands_example =
    awss_connect_ap-connect_commands (codes "wlan0") (codes "home") (codes "secret") (omega arith)
      (omega arith) (omega arith)

abbrev longer : List ℕ
longer = 104 ∷ 111 ∷ 109 ∷ []

abbrev shorter : List ℕ
shorter = 97 ∷ []

longer-IsText : IsText longer
longer-IsText = (omega arith, (omega arith, (omega arith, tt)))

awss_close_ap-awss_open_ap_example :
    awss_close_ap (awss_open_ap (codes "wlan0") longer no_ap).1
    ≡ ((codes "nmcli connection down " ++ longer) ∷ [], no_ap)
awss_close_ap-awss_open_ap_example =
    awss_close_ap-awss_open_ap (codes "wlan0") longer longer-IsText (omega arith)

awss_close_ap_second_example :
    (name : List ℕ) × (awss_close_ap
        (awss_open_ap (codes "wlan0") shorter (awss_open_ap (codes "wlan0") longer no_ap).1).1
      ≡ ((codes "nmcli connection down " ++ name) ∷ [], no_ap))
    × (name ≡ shorter ++ drop (length shorter) longer)
    × (name ≢ shorter)
    × ((name ≡ longer) ↔ (take (length shorter) longer ≡ shorter))
awss_close_ap_second_example =
    awss_close_ap_second (codes "wlan0") longer shorter longer-IsText (omega arith, tt)
      (omega arith) (omega arith)

abbrev good_calls : SnifferCalls
good_calls = record {
  socket = some 9;
  gets_index = true;
  binds = true;
  gets_flags = true;
  sets_flags = true;
}

abbrev packet : List ℕ
packet = 0 ∷ 0 ∷ 5 ∷ 0 ∷ 0 ∷ 8 ∷ 1 ∷ []

abbrev rounds : List Round
rounds = record { enabled = true; got = some packet } ∷ record { enabled = false; got = none } ∷ []

rounds-Fits : All Fits rounds
rounds-Fits = (
  (λ bytes e. let same : packet ≡ bytes = cc e in subst (λ b. length b ≤ 8000) same (omega arith)),
  ((λ bytes e. cc e), tt),
)

-- The header of five bytes is left out.
sniff_loop_run : sniff_loop rounds (replicate 8 0) ≡ some ((8 ∷ 1 ∷ []) ∷ [])
unfolding sniff_loop
sniff_loop_run = refl

func_sniffer-FrameOf_example :
    Returns
      (λ r. All (FrameOf rounds) r.0 × (r.1 ≡ 0 ∷ []))
      (func_sniffer good_calls (codes "wlan0") rounds (replicate 8000 0) (0 ∷ []))
func_sniffer-FrameOf_example =
    func_sniffer-FrameOf good_calls (codes "wlan0") rounds (replicate 8000 0) (0 ∷ [])
      (length-replicate {A = ℕ} 8000 0) rounds-Fits (inr (inl refl))

stays_off : false ≡ monitor_calls (codes "wlan0") (close_monitor ∷ open_monitor ∷ []) true
unfolding monitor_calls monitor_call
stays_off = refl

close_monitor-sniff_loop_example :
    sniff_loop (record { enabled = false; got = some packet } ∷ rounds) [] ≡ some []
close_monitor-sniff_loop_example =
    close_monitor-sniff_loop (codes "wlan0") (open_monitor ∷ []) true rounds
      (record { enabled = false; got = some packet }) [] stays_off
