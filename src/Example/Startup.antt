-- ===== src/Example/Startup.antt =====
-- All of `main`, with the parts for ATM_ENABLED and WIFI_PROVISION_ENABLED: what it sets up and which
-- callbacks it registers before it opens the device, and what it does around its loop.
use clink3_wiki.Prelude.{
  ℕ, List, [], ◌∷◌, ◌++◌, map, Bool, false, Option, none, some, if◌then◌else◌,
}
use clink3_wiki.Prelude.Int.{ℤ, pos, negsuc, minus_one}
use clink3_wiki.Wifi.Commands.{Command, do_forget_ssid_passwd}
use clink3_wiki.Example.Main.{
  MetaInfo, Action, linkkit_open, linkkit_connect, linkkit_close, main_loop,
}

-- The events of the cloud library, ITE_...
pub data EventType : Type 0 where
  connect_succ : EventType
  disconnected_type : EventType
  service_type : EventType
  property_set_type : EventType
  report_reply_type : EventType
  trigger_event_reply_type : EventType
  timestamp_reply_type : EventType
  initialize_completed : EventType
  fota_type : EventType
  cota_type : EventType

-- The callbacks of the example, each `user_..._event_handler` or `user_initialized`
pub data Handler : Type 0 where
  on_connected : Handler
  on_disconnected : Handler
  on_service_request : Handler
  on_property_set : Handler
  on_report_reply : Handler
  on_trigger_event_reply : Handler
  on_timestamp_reply : Handler
  on_initialized : Handler
  on_fota : Handler
  on_cota : Handler

-- The options of IOT_Ioctl
pub data Setting : Type 0 where
  set_domain : Setting
  set_dynamic_register : Setting
  recv_event_reply : Setting

-- IOTX_CLOUD_REGION_SHANGHAI and the log levels are values of the library.
pub record Constants : Type 0 where
  pub region_shanghai : ℕ
  pub log_debug : ℕ
  pub log_none : ℕ

-- Which macros are defined
pub record Build : Type 0 where
  pub atm_enabled : Bool
  pub wifi_provision_enabled : Bool
  pub use_dev_ap : Bool

-- What `main` does, in order; `act` is what it does without those parts
pub data MainStep : Type 0 where
  set_log_level : ℕ → MainStep
  atm_init : MainStep
  command : Command → MainStep
  sleep_s : ℕ → MainStep
  awss_dev_ap_start : MainStep
  awss_config_press : MainStep
  awss_start : MainStep
  clear_context : MainStep
  register : EventType → Handler → MainStep
  ioctl : Setting → ℕ → MainStep
  act : Action → MainStep
  awss_report_reset : MainStep
  dump_memory_stats : ℕ → MainStep

-- WIFI_PROVISION_ENABLED: `do_forget_ssid_passwd`, which waits for a key at its end, and the start of
-- the provisioning
unfoldable pub provision : Build → List MainStep
provision build =
    if build.wifi_provision_enabled
    then map command do_forget_ssid_passwd
      ++ (sleep_s 15
          ∷ (if build.use_dev_ap
              then awss_dev_ap_start ∷ []
              else awss_config_press ∷ awss_start ∷ []))
    else []

-- The calls of IOT_RegisterCallback
unfoldable pub registrations : List MainStep
registrations =
    register connect_succ on_connected
    ∷ register disconnected_type on_disconnected
    ∷ register service_type on_service_request
    ∷ register property_set_type on_property_set
    ∷ register report_reply_type on_report_reply
    ∷ register trigger_event_reply_type on_trigger_event_reply
    ∷ register timestamp_reply_type on_timestamp_reply
    ∷ register initialize_completed on_initialized
    ∷ register fota_type on_fota
    ∷ register cota_type on_cota
    ∷ []

-- The calls of IOT_Ioctl
unfoldable pub settings : Constants → List MainStep
settings k =
    ioctl set_domain k.region_shanghai
    ∷ ioctl set_dynamic_register 0
    ∷ ioctl recv_event_reply 1
    ∷ []

-- ATM_ENABLED
unfoldable pub atm_steps : Build → List MainStep
atm_steps build = if build.atm_enabled then atm_init ∷ [] else []

-- Up to the opening of the device; the identity is that of `fill_meta_info`.
unfoldable pub setup : Constants → Build → List MainStep
setup k build =
    set_log_level k.log_debug
    ∷ (atm_steps build ++ (provision build ++ clear_context ∷ (registrations ++ settings k)))

unfoldable pub report_reset : Build → List MainStep
report_reset build = if build.wifi_provision_enabled then awss_report_reset ∷ [] else []

-- The loop and what follows it
unfoldable pub closing : Constants → Build → ℕ → List Action → List MainStep
closing k build devid actions =
    report_reset build
    ++ (map act actions
        ++ (act (linkkit_close (pos devid))
            ∷ dump_memory_stats k.log_debug
            ∷ set_log_level k.log_none
            ∷ []))

unfoldable pub connected_steps :
    Constants → Build → ℕ → Option (List Action) → Option (ℤ × List MainStep)
connected_steps k build devid none = none
connected_steps k build devid (some actions) = some (pos 0, closing k build devid actions)

abbrev pub preceded : List MainStep → Option (ℤ × List MainStep) → Option (ℤ × List MainStep)
preceded before none = none
preceded before (some (r, steps)) = some (r, before ++ steps)

-- From IOT_Linkkit_Open on
unfoldable pub open_steps : Constants → Build → ℕ → ℤ → ℤ → MetaInfo → Option (ℤ × List MainStep)
open_steps k build fuel (negsuc n) connected info = some (minus_one, act (linkkit_open info) ∷ [])
open_steps k build fuel (pos devid) (negsuc n) info =
    some (minus_one, act (linkkit_open info) ∷ act (linkkit_connect (pos devid)) ∷ [])
open_steps k build fuel (pos devid) (pos n) info =
    preceded (act (linkkit_open info) ∷ act (linkkit_connect (pos devid)) ∷ [])
      (connected_steps k build devid (main_loop fuel 0 0))

-- `IOT_ATM_Init() < 0`
abbrev pub atm_fails : Build → ℤ → Bool
atm_fails build (pos n) = false
atm_fails build (negsuc n) = build.atm_enabled

-- `main` with the results of IOT_ATM_Init, IOT_Linkkit_Open and IOT_Linkkit_Connect
unfoldable pub start_main :
    Constants → Build → ℕ → ℤ → ℤ → ℤ → MetaInfo → Option (ℤ × List MainStep)
start_main k build fuel atm opened connected info =
    if atm_fails build atm
    then some (minus_one, set_log_level k.log_debug ∷ atm_init ∷ [])
    else preceded (setup k build) (open_steps k build fuel opened connected info)
