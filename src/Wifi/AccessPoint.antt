-- ===== src/Wifi/AccessPoint.antt =====
-- The access point that `HAL_Awss_Open_Ap` opens and `HAL_Awss_Close_Ap` closes, through the array
-- `g_opened_ap`.
use clink3_wiki.Prelude.{
  ℕ, ◌-◌, ◌<◌, ◌≡◌, ◌≢◌, ◌↔◌, take-append-drop, ap, refl, sym, ◌∙◌, List, [], ◌∷◌, ◌++◌,
  append_assoc, lt→ltb, All-append, All-drop, take, drop, take-append, drop_prefix, length,
  length-append, length-replicate, length-drop, replicate, arith,
}
use clink3_wiki.Prelude.Buffer.{
  IsText, memcpy-start, drop-replicate, strlen, strlen-append, strlen-replicate,
}
use clink3_wiki.Prelude.Text.{codes}
use clink3_wiki.Wifi.Commands.{snprintf, text_of, opened_ap_size, awss_close_ap, awss_open_ap}
use clink3_wiki.Wifi.Limits.{fits}

-- `g_opened_ap` while no access point is open
abbrev pub no_ap : List ℕ
no_ap = replicate opened_ap_size 0

-- The array with a name in it
abbrev pub named : List ℕ → List ℕ
named ssid = ssid ++ replicate (opened_ap_size - length ssid) 0

-- A text in front of a zero is the text of its array.
pub text_of-zero : (s rest : List ℕ) → IsText s → text_of (s ++ 0 ∷ rest) ≡ s
text_of-zero s rest t =
    ap (λ n. take n (s ++ 0 ∷ rest)) (strlen-append s (0 ∷ rest) t refl)
    ∙ take-append (length s) s (0 ∷ rest) refl

text_of-named :
    (ssid : List ℕ) (zeros : ℕ) → IsText ssid → text_of (ssid ++ replicate zeros 0) ≡ ssid
text_of-named ssid zeros t =
    let size : strlen (ssid ++ replicate zeros 0) ≡ length ssid =
      strlen-append ssid (replicate zeros 0) t (strlen-replicate zeros) in
    ap (λ n. take n (ssid ++ replicate zeros 0)) size
    ∙ take-append (length ssid) ssid (replicate zeros 0) refl

close_named :
    (ssid : List ℕ)
    → IsText ssid
    → length ssid < 36
    → awss_close_ap (named ssid) ≡ ((codes "nmcli connection down " ++ ssid) ∷ [], no_ap)
unfolding awss_close_ap snprintf
close_named ssid t h =
    ap (λ name. (snprintf 256 (codes "nmcli connection down " ++ name) ∷ [], no_ap))
      (text_of-named ssid (36 - length ssid) t)
    ∙ ap (λ c. (c ∷ [], no_ap))
        (fits 256 (codes "nmcli connection down " ++ ssid)
          (omega (arith, length-append (codes "nmcli connection down ") ssid)))

open_named :
    (ifname ssid : List ℕ) → length ssid < 36 → (awss_open_ap ifname ssid no_ap).1 ≡ named ssid
unfolding awss_open_ap
open_named ifname ssid h = rw (lt→ltb (length ssid) 36 h) (
    memcpy-start no_ap ssid (omega (arith, length-replicate {A = ℕ} 36 0))
    ∙ ap (λ t. ssid ++ t) (drop-replicate (length ssid) 36))

-- Closing takes down the access point that was opened, by its name, and forgets it, for a name of
-- fewer than 36 characters.
pub awss_close_ap-awss_open_ap :
    (ifname ssid : List ℕ)
    → IsText ssid
    → length ssid < 36
    → awss_close_ap (awss_open_ap ifname ssid no_ap).1
      ≡ ((codes "nmcli connection down " ++ ssid) ∷ [], no_ap)
awss_close_ap-awss_open_ap ifname ssid t h =
    ap awss_close_ap (open_named ifname ssid h) ∙ close_named ssid t h

-- The array after a second access point with a shorter name
reopen_named :
    (ifname first second : List ℕ)
    → length first < 36
    → length second < length first
    → (awss_open_ap ifname second (named first)).1 ≡ named (second ++ drop (length second) first)
unfolding awss_open_ap
reopen_named ifname first second h shorter =
    let zeros : List ℕ = replicate (36 - length first) 0 in
    let left : List ℕ = drop (length second) first in
    rw (lt→ltb (length second) 36 (omega arith)) (
      memcpy-start (first ++ zeros) second (omega (arith, length-append first zeros))
      ∙ ap (λ t. second ++ t) (drop_prefix (length second) first zeros (omega arith))
      ∙ sym (append_assoc second left zeros)
      ∙ ap (λ n. (second ++ left) ++ replicate (36 - n) 0)
          (omega (arith, length-append second left, length-drop (length second) first)))

-- The name in the array is not the second one, and is the first one only if that begins with the second.
mixed_name :
    (first second : List ℕ)
    → length second < length first
    → ((second ++ drop (length second) first) ≢ second)
      × (((second ++ drop (length second) first) ≡ first) ↔ (take (length second) first ≡ second))
mixed_name first second shorter =
    let left : List ℕ = drop (length second) first in
    (
      (λ e. absurd (
          omega
            (arith, ap length e, length-append second left, length-drop (length second) first))),
      (
        (λ e. ap (take (length second)) (sym e) ∙ take-append (length second) second left refl),
        (λ e. ap (λ t. t ++ left) (sym e) ∙ take-append-drop (length second) first),
      ),
    )

-- When a second access point with a shorter name is opened before the first one is closed, closing takes
-- down the name that is the second one with the end of the first one behind it. That is never the
-- second name, and it is the first name exactly when that begins with the second one.
pub awss_close_ap_second :
    (ifname first second : List ℕ)
    → IsText first
    → IsText second
    → length first < 36
    → length second < length first
    → (name : List ℕ) × (awss_close_ap
          (awss_open_ap ifname second (awss_open_ap ifname first no_ap).1).1
        ≡ ((codes "nmcli connection down " ++ name) ∷ [], no_ap))
      × (name ≡ second ++ drop (length second) first)
      × (name ≢ second)
      × ((name ≡ first) ↔ (take (length second) first ≡ second))
awss_close_ap_second ifname first second t u h shorter =
    let left : List ℕ = drop (length second) first in
    let (other, same) = mixed_name first second shorter in
    (
      second ++ left,
      ap (λ g. awss_close_ap (awss_open_ap ifname second g).1) (open_named ifname first h)
          ∙ ap awss_close_ap (reopen_named ifname first second h shorter)
          ∙ close_named (second ++ left)
              (All-append (λ c. 0 < c) second left u
                (All-drop (λ c. 0 < c) (length second) first t))
              (omega (arith, length-append second left, length-drop (length second) first)),
      refl,
      other,
      same,
    )
