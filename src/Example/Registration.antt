-- ===== src/Example/Registration.antt =====
-- What the steps of `main` register, and which of its actions they are.
use clink3_wiki.Prelude.{
  ◌≡◌, refl, ap, ap₂, ◌∙◌, sym, List, [], ◌∷◌, ◌++◌, map, Bool, true, false, Option, some,
  if◌then◌else◌, append_assoc,
}
use clink3_wiki.Example.Main.{Action}
use clink3_wiki.Example.Startup.{
  EventType, connect_succ, disconnected_type, service_type, property_set_type, report_reply_type,
  trigger_event_reply_type, timestamp_reply_type, initialize_completed, fota_type, cota_type,
  Handler, on_connected, on_disconnected, on_service_request, on_property_set, on_report_reply,
  on_trigger_event_reply, on_timestamp_reply, on_initialized, on_fota, on_cota, Build, MainStep,
  atm_init, command, sleep_s, awss_dev_ap_start, awss_config_press, awss_start, register, act,
  provision, registrations, atm_steps,
}
use clink3_wiki.Wifi.Commands.{do_forget_ssid_passwd}

-- The actions among the steps
abbrev own_action : MainStep → List Action
own_action (act a) = a ∷ []
own_action s = []

unfoldable pub actions_of : List MainStep → List Action
actions_of [] = []
actions_of (s ∷ steps) = own_action s ++ actions_of steps

-- Whether the types are the same
abbrev same_type : EventType → EventType → Bool
same_type connect_succ connect_succ = true
same_type disconnected_type disconnected_type = true
same_type service_type service_type = true
same_type property_set_type property_set_type = true
same_type report_reply_type report_reply_type = true
same_type trigger_event_reply_type trigger_event_reply_type = true
same_type timestamp_reply_type timestamp_reply_type = true
same_type initialize_completed initialize_completed = true
same_type fota_type fota_type = true
same_type cota_type cota_type = true
same_type s t = false

-- What the steps register for a type, when the last call counts
abbrev chosen : MainStep → EventType → Option Handler → Option Handler
chosen (register s h) t before = if same_type s t then some h else before
chosen s t before = before

unfoldable pub registered : List MainStep → EventType → Option Handler → Option Handler
registered [] t before = before
registered (s ∷ steps) t before = registered steps t (chosen s t before)

-- The callback that should serve each type
unfoldable pub handler_of : EventType → Handler
handler_of connect_succ = on_connected
handler_of disconnected_type = on_disconnected
handler_of service_type = on_service_request
handler_of property_set_type = on_property_set
handler_of report_reply_type = on_report_reply
handler_of trigger_event_reply_type = on_trigger_event_reply
handler_of timestamp_reply_type = on_timestamp_reply
handler_of initialize_completed = on_initialized
handler_of fota_type = on_fota
handler_of cota_type = on_cota

-- Steps without a registration
unfoldable pub IsSilent : List MainStep → Type 0
IsSilent steps = (t : EventType) (before : Option Handler) → registered steps t before ≡ before

pub registered-append :
    (xs ys : List MainStep) (t : EventType) (before : Option Handler)
    → registered (xs ++ ys) t before ≡ registered ys t (registered xs t before)
unfolding registered
registered-append [] ys t before = refl
registered-append (s ∷ xs) ys t before = registered-append xs ys t (chosen s t before)

pub IsSilent-append : (xs ys : List MainStep) → IsSilent xs → IsSilent ys → IsSilent (xs ++ ys)
unfolding IsSilent
IsSilent-append xs ys sx sy t before =
    registered-append xs ys t before ∙ sy t (registered xs t before) ∙ sx t before

pub IsSilent-act : (actions : List Action) → IsSilent (map act actions)
unfolding IsSilent registered
IsSilent-act [] t before = refl
IsSilent-act (a ∷ actions) t before = IsSilent-act actions t before

pub registrations-handler_of :
    (t : EventType) (before : Option Handler)
    → registered registrations t before ≡ some (handler_of t)
unfolding registered registrations handler_of
registrations-handler_of connect_succ before = refl
registrations-handler_of disconnected_type before = refl
registrations-handler_of service_type before = refl
registrations-handler_of property_set_type before = refl
registrations-handler_of report_reply_type before = refl
registrations-handler_of trigger_event_reply_type before = refl
registrations-handler_of timestamp_reply_type before = refl
registrations-handler_of initialize_completed before = refl
registrations-handler_of fota_type before = refl
registrations-handler_of cota_type before = refl

pub actions_of-append :
    (xs ys : List MainStep) → actions_of (xs ++ ys) ≡ actions_of xs ++ actions_of ys
unfolding actions_of
actions_of-append [] ys = refl
actions_of-append (s ∷ xs) ys =
    ap (λ r. own_action s ++ r) (actions_of-append xs ys)
    ∙ sym (append_assoc (own_action s) (actions_of xs) (actions_of ys))

pub actions_of-act : (actions : List Action) → actions_of (map act actions) ≡ actions
unfolding actions_of
actions_of-act [] = refl
actions_of-act (a ∷ actions) = ap (λ r. a ∷ r) (actions_of-act actions)

-- Steps without a registration and without an action
abbrev IsAside : List MainStep → Type 0
IsAside steps = IsSilent steps × (actions_of steps ≡ [])

IsAside-append : (xs ys : List MainStep) → IsAside xs → IsAside ys → IsAside (xs ++ ys)
IsAside-append xs ys ax ay =
    (IsSilent-append xs ys ax.0 ay.0, actions_of-append xs ys ∙ ap₂ ◌++◌ ax.1 ay.1)

pub IsAside-if :
    (b : Bool) (xs ys : List MainStep) → IsAside xs → IsAside ys → IsAside (if b then xs else ys)
IsAside-if true xs ys ax ay = ax
IsAside-if false xs ys ax ay = ay

pub provision-IsAside : (build : Build) → IsAside (provision build)
unfolding provision do_forget_ssid_passwd IsSilent registered actions_of
provision-IsAside build =
    IsAside-if build.wifi_provision_enabled _ []
      (IsAside-append (map command do_forget_ssid_passwd ++ sleep_s 15 ∷ [])
        (if build.use_dev_ap then awss_dev_ap_start ∷ [] else awss_config_press ∷ awss_start ∷ [])
        (λ t before. refl, refl)
        (IsAside-if build.use_dev_ap _ _ (λ t before. refl, refl) (λ t before. refl, refl)))
      (λ t before. refl, refl)

pub atm_steps-IsAside : (build : Build) → IsAside (atm_steps build)
unfolding atm_steps IsSilent registered actions_of
atm_steps-IsAside build =
    IsAside-if build.atm_enabled (atm_init ∷ []) [] (λ t before. refl, refl)
      (λ t before. refl, refl)

pub behind_silent :
    (xs ys : List MainStep)
    → IsSilent xs
    → (t : EventType) (before : Option Handler)
    → registered (xs ++ ys) t before ≡ registered ys t before
unfolding IsSilent
behind_silent xs ys quiet t before =
    registered-append xs ys t before ∙ ap (registered ys t) (quiet t before)
