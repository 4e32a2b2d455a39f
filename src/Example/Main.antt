-- ===== src/Example/Main.antt =====
-- `main` without the parts for WIFI_PROVISION_ENABLED and ATM_ENABLED: the steps it takes, up to its
-- return.
use clink3_wiki.Prelude.{
  ℕ, zero, suc, ◌+◌, ◌%◌, List, [], ◌∷◌, ◌++◌, Option, none, some, ltb, ◌==◌, if◌then◌else◌, take,
}
use clink3_wiki.Prelude.Int.{ℤ, pos, negsuc, minus_one}
use clink3_wiki.Prelude.Buffer.{memcpy, strlen}
use clink3_wiki.Example.Events.{CloudCall, user_post_property, user_post_event}

-- `iotx_linkkit_dev_meta_info_t`
pub record MetaInfo : Type 0 where
  pub product_key : List ℕ
  pub product_secret : List ℕ
  pub device_name : List ℕ
  pub device_secret : List ℕ

-- What `main` asks the cloud library and the platform for
pub data Action : Type 0 where
  linkkit_open : MetaInfo → Action
  linkkit_connect : ℤ → Action
  linkkit_yield : ℕ → Action
  call : CloudCall → Action
  sleep_ms : ℕ → Action
  linkkit_close : ℤ → Action

-- `memcpy(field, text, strlen(text))` into a zeroed field
abbrev pub fill_field : List ℕ → List ℕ → List ℕ
fill_field field text = memcpy field 0 (take (strlen text) text)

-- `master_meta_info`, from the four arrays and a zeroed structure
unfoldable pub fill_meta_info : MetaInfo → MetaInfo → MetaInfo
fill_meta_info zeroed texts = record {
  product_key = fill_field zeroed.product_key texts.product_key;
  product_secret = fill_field zeroed.product_secret texts.product_secret;
  device_name = fill_field zeroed.device_name texts.device_name;
  device_secret = fill_field zeroed.device_secret texts.device_secret;
}

-- What a turn does before `++cnt`
unfoldable pub turn_actions : ℕ → ℕ → List Action
turn_actions cnt counter =
    linkkit_yield 200
    ∷ ((if cnt % 2 == 0 then call (user_post_property counter).0 ∷ [] else [])
        ++ (if cnt % 10 == 0 then call user_post_event ∷ [] else []))

-- The static counter of `user_post_property` behind a turn
unfoldable pub turn_counter : ℕ → ℕ → ℕ
unfolding user_post_property
turn_counter cnt counter = if cnt % 2 == 0 then (user_post_property counter).1 else counter

abbrev pub behind : List Action → Option (List Action) → Option (List Action)
behind actions none = none
behind actions (some more) = some (actions ++ more)

-- `while (1)` from the counters on, or `none` when the fuel is spent
unfoldable pub main_loop : ℕ → ℕ → ℕ → Option (List Action)
unfolding turn_actions turn_counter
main_loop zero cnt counter = none
main_loop (suc fuel) cnt counter =
    let rest = main_loop fuel (cnt + 1) (turn_counter cnt counter) in
    if ltb 3600 (cnt + 1)
    then some (turn_actions cnt counter)
    else behind (turn_actions cnt counter ++ sleep_ms 1000 ∷ []) rest

-- What follows the loop: the device is closed, and `main` returns 0.
unfoldable pub after_loop : ℕ → MetaInfo → Option (List Action) → Option (ℤ × List Action)
after_loop devid info none = none
after_loop devid info (some actions) = some (
  pos 0,
  linkkit_open info ∷ linkkit_connect (pos devid) ∷ (actions ++ linkkit_close (pos devid) ∷ []),
)

-- `main` with the results of IOT_Linkkit_Open and IOT_Linkkit_Connect: its result and its actions
unfoldable pub run_main : ℕ → ℤ → ℤ → MetaInfo → Option (ℤ × List Action)
unfolding after_loop
run_main fuel (negsuc n) connected info = some (minus_one, linkkit_open info ∷ [])
run_main fuel (pos devid) (negsuc n) info =
    some (minus_one, linkkit_open info ∷ linkkit_connect (pos devid) ∷ [])
run_main fuel (pos devid) (pos n) info = after_loop devid info (main_loop fuel 0 0)
