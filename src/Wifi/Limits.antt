-- ===== src/Wifi/Limits.antt =====
-- No command of `HAL_Awss_Connect_Ap` and `HAL_Awss_Open_Ap` is cut by its buffer.
use clink3_wiki.Prelude.{
  ℕ, ◌-◌, ◌≤◌, ◌≡◌, ap, ap₂, refl, List, [], ◌∷◌, ◌++◌, ◌==◌, if◌then◌else◌, inl, inr, Bool-cases,
  take_all, length, length-append, arith,
}
use clink3_wiki.Prelude.Buffer.{strlen}
use clink3_wiki.Prelude.Text.{codes}
use Prim.Native.String.{String}
use clink3_wiki.Wifi.Commands.{
  Command, snprintf, security_commands, awss_connect_ap, mode_commands, awss_open_ap,
}

-- A text that fits is not cut.
pub fits : (size : ℕ) (text : List ℕ) → length text ≤ size - 1 → snprintf size text ≡ text
unfolding snprintf
fits size text h = take_all (size - 1) text h

cons_eq : {x y : Command} {xs ys : List Command} → x ≡ y → xs ≡ ys → x ∷ xs ≡ y ∷ ys
cons_eq e f = ap₂ (λ x xs. x ∷ xs) e f

-- The security of a connection: for an open network it names the connection "none" and the key
-- management "linkkit".
abbrev pub security : List ℕ → List Command
security passwd =
    if strlen passwd == 0
    then codes "nmcli connection modify none wifi-sec.key-mgmt linkkit" ∷ []
    else codes "nmcli connection modify linkkit wifi-sec.key-mgmt wpa-psk"
      ∷ (codes "nmcli connection modify linkkit wifi-sec.psk " ++ passwd)
      ∷ []

-- The commands that connect to a network: the old connection goes, the new one gets its interface, its
-- name and its security, and is brought up.
abbrev pub connect_commands : List ℕ → List ℕ → List ℕ → List Command
connect_commands ifname ssid passwd =
    codes "nmcli connection down linkkit"
    ∷ codes "nmcli connection delete linkkit"
    ∷ (codes "nmcli connection add con-name linkkit ifname "
        ++ (ifname ++ (codes " type wifi ssid " ++ ssid)))
    ∷ (security passwd ++ codes "nmcli connection up linkkit" ∷ [])

security_commands-security :
    (passwd : List ℕ) → length passwd ≤ 64 → security_commands passwd ≡ security passwd
unfolding security_commands snprintf
security_commands-security passwd h = elim (Bool-cases (strlen passwd == 0)) [
  | inl none_given ↦ rw none_given refl
  | inr given ↦
      let psk : List ℕ = codes "nmcli connection modify linkkit wifi-sec.psk " ++ passwd in
      rw given (
        cons_eq refl (
          cons_eq
            (fits 128 psk (
              omega (
                arith,
                length-append (codes "nmcli connection modify linkkit wifi-sec.psk ") passwd,
              )))
            refl))
]

-- With an interface name of up to 15 characters, a network name of up to 32 and a password of up to 64,
-- `HAL_Awss_Connect_Ap` runs its commands whole.
pub awss_connect_ap-connect_commands :
    (ifname ssid passwd : List ℕ)
    → length ifname ≤ 15
    → length ssid ≤ 32
    → length passwd ≤ 64
    → awss_connect_ap ifname ssid passwd ≡ connect_commands ifname ssid passwd
unfolding awss_connect_ap snprintf
awss_connect_ap-connect_commands ifname ssid passwd hi hs hp =
    let head : List ℕ = codes "nmcli connection add con-name linkkit ifname " in
    let middle : List ℕ = codes " type wifi ssid " in
    cons_eq refl (
      cons_eq refl (
        cons_eq
          (fits 128 (head ++ (ifname ++ (middle ++ ssid))) (
            omega (
              arith,
              length-append head (ifname ++ (middle ++ ssid)),
              length-append ifname (middle ++ ssid),
              length-append middle ssid,
            )))
          (ap (λ s. s ++ codes "nmcli connection up linkkit" ∷ [])
            (security_commands-security passwd hp))))

-- The commands that open an access point
abbrev pub open_commands : List ℕ → List ℕ → List Command
open_commands ifname ssid =
    (codes "ifconfig " ++ (ifname ++ codes " down"))
    ∷ (codes "nmcli connection down " ++ ssid)
    ∷ codes "nmcli connection delete linkkit"
    ∷ (codes "nmcli connection delete " ++ ssid)
    ∷ (codes "nmcli connection add con-name "
        ++ (ssid
            ++ (codes " type wifi ifname "
                ++ (ifname ++ (codes " autoconnect yes ssid " ++ (ssid ++ codes " mode ap"))))))
    ∷ (codes "nmcli connection modify "
        ++ (ssid ++ codes " 802-11-wireless.mode ap ipv4.method shared"))
    ∷ (codes "nmcli connection up " ++ ssid)
    ∷ []

-- With an interface name of up to 15 characters and a network name of up to 32, `HAL_Awss_Open_Ap` runs
-- its commands whole.
pub awss_open_ap-open_commands :
    (ifname ssid opened_ap : List ℕ)
    → length ifname ≤ 15
    → length ssid ≤ 32
    → (awss_open_ap ifname ssid opened_ap).0 ≡ open_commands ifname ssid
unfolding awss_open_ap mode_commands snprintf
awss_open_ap-open_commands ifname ssid opened_ap hi hs =
    let type_wifi : List ℕ = codes " type wifi ifname " in
    let autoconnect : List ℕ = codes " autoconnect yes ssid " in
    let mode_ap : List ℕ = codes " mode ap" in
    let shared : List ℕ = codes " 802-11-wireless.mode ap ipv4.method shared" in
    cons_eq
      (fits 256 (codes "ifconfig " ++ (ifname ++ codes " down")) (
        omega (
          arith,
          length-append (codes "ifconfig ") (ifname ++ codes " down"),
          length-append ifname (codes " down"),
        )))
      (cons_eq (one "nmcli connection down " (omega arith)) (
        cons_eq refl (
          cons_eq (one "nmcli connection delete " (omega arith)) (
            cons_eq
              (fits 256
                (codes "nmcli connection add con-name "
                  ++ (ssid ++ (type_wifi ++ (ifname ++ (autoconnect ++ (ssid ++ mode_ap))))))
                (omega (
                  arith,
                  length-append (codes "nmcli connection add con-name ")
                      (ssid ++ (type_wifi ++ (ifname ++ (autoconnect ++ (ssid ++ mode_ap))))),
                  length-append ssid (type_wifi ++ (ifname ++ (autoconnect ++ (ssid ++ mode_ap)))),
                  length-append type_wifi (ifname ++ (autoconnect ++ (ssid ++ mode_ap))),
                  length-append ifname (autoconnect ++ (ssid ++ mode_ap)),
                  length-append autoconnect (ssid ++ mode_ap),
                  length-append ssid mode_ap,
                )))
              (cons_eq
                (fits 256 (codes "nmcli connection modify " ++ (ssid ++ shared)) (
                  omega (
                    arith,
                    length-append (codes "nmcli connection modify ") (ssid ++ shared),
                    length-append ssid shared,
                  )))
                (cons_eq (one "nmcli connection up " (omega arith)) refl))))))
  where
    one : (p : String) → length (codes p) ≤ 200 → snprintf 256 (codes p ++ ssid) ≡ codes p ++ ssid
    one p h = fits 256 (codes p ++ ssid) (omega (arith, length-append (codes p) ssid, h))
