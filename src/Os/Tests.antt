-- ===== src/Os/Tests.antt =====
-- A mutex, a wait that is interrupted once, the identity in small arrays, and an access point.
use clink3_wiki.Prelude.{
  ℕ, ◌<◌, ◌≡◌, refl, List, [], ◌∷◌, ◌++◌, true, false, some, All, inl, inr, Returns, arith,
  replicate, subst,
}
use clink3_wiki.Prelude.Int.{pos}
use clink3_wiki.Prelude.Buffer.{Holds, IsText}
use clink3_wiki.Wifi.Commands.{text_of}
use clink3_wiki.Example.Main.{fill_meta_info}
use clink3_wiki.Os.Handles.{
  mutex_create, mutex_destroy, semaphore_create, semaphore_destroy, timer_create, timer_delete,
}
use clink3_wiki.Os.Balance.{Balanced, create-Balanced}
use clink3_wiki.Os.Timing.{
  Timespec, Attempt, signaled, interrupted, expired, timed_wait, semaphore_wait, deadline,
}
use clink3_wiki.Os.Deadlines.{HasClock, WaitedFor, semaphore_wait-Waited}
use clink3_wiki.Os.Identity.{
  product_key_text, product_secret_text, device_name_text, device_secret_text,
}
use clink3_wiki.Os.Opening.{Sizes, identity, zeroed, fill_meta_info-identity}
use clink3_wiki.Os.Network.{wifi_get_ap_info}
use clink3_wiki.Os.Names.{wifi_get_ap_info-texts}

create-Balanced_example :
    Balanced [] mutex_destroy (mutex_create (some 7) true [])
    × Balanced [] semaphore_destroy (semaphore_create (some 7) true [])
    × Balanced [] (λ h bs. (timer_delete (pos 0) h bs).1) (timer_create false (some 7) true [])
create-Balanced_example = create-Balanced (some 7) true false (pos 0) []

abbrev early : Timespec
early = record { tv_sec = 10; tv_nsec = 900000000 }

abbrev late : Timespec
late = record { tv_sec = 12; tv_nsec = 0 }

abbrev attempts : List Attempt
attempts =
    record { now = some early; wait = λ d. interrupted }
    ∷ record { now = some late; wait = λ d. signaled }
    ∷ []

-- The second deadline lies 200 milliseconds behind the second time.
semaphore_wait_run :
    semaphore_wait 0xffffffff 200 expired attempts
    ≡ some (
      pos 0,
      record { tv_sec = 11; tv_nsec = 100000000 }
          ∷ record { tv_sec = 12; tv_nsec = 200000000 }
          ∷ [],
    )
unfolding semaphore_wait timed_wait deadline
semaphore_wait_run = refl

attempts-HasClock : All HasClock attempts
attempts-HasClock = (
  (λ ts e. let same : early ≡ ts = cc e in subst (λ t. t.tv_nsec < 1000000000) same (omega arith)),
  (
    (λ ts e. let same : late ≡ ts = cc e in subst (λ t. t.tv_nsec < 1000000000) same (omega arith)),
    tt,
  ),
)

semaphore_wait-Waited_example :
    Returns (WaitedFor 0xffffffff 200 attempts) (semaphore_wait 0xffffffff 200 expired attempts)
semaphore_wait-Waited_example =
    semaphore_wait-Waited 0xffffffff 200 expired attempts attempts-HasClock
      (inr (inr (inl (λ ts e w. cc w))))

abbrev arrays : Sizes
arrays = record { product_key = 20; product_secret = 64; device_name = 32; device_secret = 64 }

abbrev fields : Sizes
fields = record { product_key = 21; product_secret = 65; device_name = 33; device_secret = 65 }

fill_meta_info-identity_example :
    Holds 21 product_key_text (fill_meta_info (zeroed fields) (identity arrays)).product_key
    × Holds 65 product_secret_text (fill_meta_info (zeroed fields) (identity arrays)).product_secret
    × Holds 33 device_name_text (fill_meta_info (zeroed fields) (identity arrays)).device_name
    × Holds 65 device_secret_text (fill_meta_info (zeroed fields) (identity arrays)).device_secret
fill_meta_info-identity_example =
    fill_meta_info-identity arrays fields (omega arith, omega arith, omega arith, omega arith)
      (omega arith, omega arith, omega arith, omega arith)

abbrev name : List ℕ
name = 104 ∷ 105 ∷ []

name-IsText : IsText name
name-IsText = (omega arith, (omega arith, tt))

wifi_get_ap_info-texts_example :
    (ssid' passwd' bssid' : List ℕ) × ((wifi_get_ap_info 3 4
        (record {
          ssid = some (name ++ 10 ∷ []);
          passwd = some (name ++ 10 ∷ []);
          bssid = some (replicate 18 48);
        })
        (record {
          ssid = some (replicate 3 1);
          passwd = some (replicate 4 1);
          bssid = some (replicate 6 1);
        })).0
      ≡ record { ssid = some ssid'; passwd = some passwd'; bssid = some bssid' })
    × (text_of ssid' ≡ name)
    × (text_of passwd' ≡ name)
    × (text_of bssid' ≡ [])
wifi_get_ap_info-texts_example =
    wifi_get_ap_info-texts 3 4 (replicate 3 1) (replicate 4 1) (replicate 18 48) name name
      (replicate 6 1) name-IsText name-IsText (omega arith) (omega arith) (omega arith)
      (omega arith) (omega arith) (omega arith) (omega arith) (omega arith) (omega arith)
      (omega arith)
