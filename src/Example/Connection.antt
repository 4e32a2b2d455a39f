-- ===== src/Example/Connection.antt =====
-- What the callbacks of the example leave in its context, and what they ask of the cloud.
use clink3_wiki.Prelude.{
  ℕ, zero, suc, ◌≡◌, ◌≢◌, refl, List, [], ◌∷◌, ◌++◌, take, replicate, All, ◌==◌, false, arith,
}
use clink3_wiki.Prelude.Int.{ℤ, pos, negsuc}
use clink3_wiki.Example.Events.{
  ExampleContext, CloudCall, report, query, post_property, query_fota_data, query_cota_data,
  Callback, connected, disconnected, initialized, report_reply, trigger_event_reply, property_set,
  timestamp_reply, fota, cota, is_new, handle, handle_all,
}

-- The callback says nothing of the connection, or nothing of the start of the device.
abbrev pub LeavesConnection : Callback → Type 0
LeavesConnection connected = ⊥
LeavesConnection disconnected = ⊥
LeavesConnection c = Unit

abbrev pub LeavesStart : Callback → Type 0
LeavesStart initialized = ⊥
LeavesStart c = Unit

-- `cloud_connected` behind the callbacks: 1 or 0 when the last news was a connect or a disconnect, and
-- what it was before when there was none
pub data LastNews (known : ℕ) : List Callback → ℕ → Type 0 where
  no_news :
      {callbacks : List Callback} → All LeavesConnection callbacks → LastNews known callbacks known
  came_up :
      (before after : List Callback)
      → All LeavesConnection after
      → LastNews known (before ++ connected ∷ after) 1
  went_down :
      (before after : List Callback)
      → All LeavesConnection after
      → LastNews known (before ++ disconnected ∷ after) 0

-- `master_initialized` behind the callbacks: 1 when one of them was the start of the device, wherever
pub data Started (known : ℕ) : List Callback → ℕ → Type 0 where
  not_started :
      {callbacks : List Callback} → All LeavesStart callbacks → Started known callbacks known
  started : (before after : List Callback) → Started known (before ++ initialized ∷ after) 1

-- What a callback asks of the cloud: a property that is set is reported; for a firmware or a configuration
-- of type 0 its data is queried, with a buffer of 128 bytes; and nothing else.
pub data Asks : Callback → List CloudCall → Type 0 where
  property :
      {request : List ℕ} {n : ℕ}
      → Asks (property_set request n) (report post_property (take n request) ∷ [])
  new_firmware : Asks (fota (pos 0)) (query query_fota_data (replicate 128 0) ∷ [])
  known_firmware : {type : ℤ} → type ≢ pos 0 → Asks (fota type) []
  new_configuration : Asks (cota (pos 0)) (query query_cota_data (replicate 128 0) ∷ [])
  known_configuration : {type : ℤ} → type ≢ pos 0 → Asks (cota type) []
  connects : Asks connected []
  disconnects : Asks disconnected []
  starts : Asks initialized []
  reply_of_report : Asks report_reply []
  reply_of_event : Asks trigger_event_reply []
  reply_of_time : Asks timestamp_reply []

pub data AsksAll : List Callback → List CloudCall → Type 0 where
  no_callback : AsksAll [] []
  asked :
      {c : Callback} {callbacks : List Callback} {calls more : List CloudCall}
      → Asks c calls
      → AsksAll callbacks more
      → AsksAll (c ∷ callbacks) (calls ++ more)

LastNews-behind :
    {known n : ℕ} {callbacks : List Callback} (c : Callback)
    → LeavesConnection c
    → LastNews known callbacks n
    → LastNews known (c ∷ callbacks) n
LastNews-behind c quiet (no_news all) = no_news (quiet, all)
LastNews-behind c quiet (came_up before after all) = came_up (c ∷ before) after all
LastNews-behind c quiet (went_down before after all) = went_down (c ∷ before) after all

LastNews-connected :
    {known n : ℕ} {callbacks : List Callback}
    → LastNews 1 callbacks n
    → LastNews known (connected ∷ callbacks) n
LastNews-connected (no_news all) = came_up [] _ all
LastNews-connected (came_up before after all) = came_up (connected ∷ before) after all
LastNews-connected (went_down before after all) = went_down (connected ∷ before) after all

LastNews-disconnected :
    {known n : ℕ} {callbacks : List Callback}
    → LastNews 0 callbacks n
    → LastNews known (disconnected ∷ callbacks) n
LastNews-disconnected (no_news all) = went_down [] _ all
LastNews-disconnected (came_up before after all) = came_up (disconnected ∷ before) after all
LastNews-disconnected (went_down before after all) = went_down (disconnected ∷ before) after all

Started-behind :
    {known n : ℕ} {callbacks : List Callback} (c : Callback)
    → LeavesStart c
    → Started known callbacks n
    → Started known (c ∷ callbacks) n
Started-behind c quiet (not_started all) = not_started (quiet, all)
Started-behind c quiet (started before after) = started (c ∷ before) after

Started-initialized :
    {known n : ℕ} {callbacks : List Callback}
    → Started 1 callbacks n
    → Started known (initialized ∷ callbacks) n
Started-initialized (not_started all) = started [] _
Started-initialized (started before after) = started (initialized ∷ before) after

suc_other : (n : ℕ) → (suc n == 0) ≡ false
suc_other n = ground arith

fota-Asks :
    (type : ℤ) → Asks (fota type) (is_new type (query query_fota_data (replicate 128 0) ∷ []))
fota-Asks (pos zero) = new_firmware
fota-Asks (pos (suc n)) = rw (suc_other n) (known_firmware (λ e. cc e))
fota-Asks (negsuc n) = known_firmware (λ e. cc e)

cota-Asks :
    (type : ℤ) → Asks (cota type) (is_new type (query query_cota_data (replicate 128 0) ∷ []))
cota-Asks (pos zero) = new_configuration
cota-Asks (pos (suc n)) = rw (suc_other n) (known_configuration (λ e. cc e))
cota-Asks (negsuc n) = known_configuration (λ e. cc e)

pub record Handled (callbacks : List Callback) (ctx : ExampleContext)
    (r : ExampleContext × List CloudCall) : Type 0 where
  pub devid : r.0.master_devid ≡ ctx.master_devid
  pub connection : LastNews ctx.cloud_connected callbacks r.0.cloud_connected
  pub initialization : Started ctx.master_initialized callbacks r.0.master_initialized
  pub calls : AsksAll callbacks r.1

-- A callback that leaves the context as it is, in front of the others
Handled-behind :
    {ctx : ExampleContext} {callbacks : List Callback} {calls : List CloudCall}
    {r : ExampleContext × List CloudCall} (c : Callback)
    → LeavesConnection c
    → LeavesStart c
    → Asks c calls
    → Handled callbacks ctx r
    → Handled (c ∷ callbacks) ctx (r.0, calls ++ r.1)
Handled-behind c quiet quiet' asks h = record {
  devid = h.devid;
  connection = LastNews-behind c quiet h.connection;
  initialization = Started-behind c quiet' h.initialization;
  calls = asked asks h.calls;
}

-- Whatever callbacks come in whatever order: the device id stays; `cloud_connected` is the last news of
-- the connection, or what it was when there was none; `master_initialized` is 1 once the device was
-- initialized, and else what it was; and the cloud is asked, in the order of the callbacks, for exactly
-- a report of each property that is set and a query for each firmware or configuration of type 0.
pub handle_all-Handled :
    (callbacks : List Callback) (ctx : ExampleContext)
    → Handled callbacks ctx (handle_all callbacks ctx)
unfolding handle_all handle
handle_all-Handled [] ctx = record {
  devid = refl;
  connection = no_news tt;
  initialization = not_started tt;
  calls = no_callback;
}
handle_all-Handled (connected ∷ callbacks) ctx =
    let h = handle_all-Handled callbacks (record ctx { cloud_connected = 1 }) in
    record {
      devid = h.devid;
      connection = LastNews-connected h.connection;
      initialization = Started-behind connected tt h.initialization;
      calls = asked connects h.calls;
    }
handle_all-Handled (disconnected ∷ callbacks) ctx =
    let h = handle_all-Handled callbacks (record ctx { cloud_connected = 0 }) in
    record {
      devid = h.devid;
      connection = LastNews-disconnected h.connection;
      initialization = Started-behind disconnected tt h.initialization;
      calls = asked disconnects h.calls;
    }
handle_all-Handled (initialized ∷ callbacks) ctx =
    let h = handle_all-Handled callbacks (record ctx { master_initialized = 1 }) in
    record {
      devid = h.devid;
      connection = LastNews-behind initialized tt h.connection;
      initialization = Started-initialized h.initialization;
      calls = asked starts h.calls;
    }
handle_all-Handled (report_reply ∷ callbacks) ctx =
    Handled-behind report_reply tt tt reply_of_report (handle_all-Handled callbacks ctx)
handle_all-Handled (trigger_event_reply ∷ callbacks) ctx =
    Handled-behind trigger_event_reply tt tt reply_of_event (handle_all-Handled callbacks ctx)
handle_all-Handled (timestamp_reply ∷ callbacks) ctx =
    Handled-behind timestamp_reply tt tt reply_of_time (handle_all-Handled callbacks ctx)
handle_all-Handled (property_set request n ∷ callbacks) ctx =
    Handled-behind (property_set request n) tt tt property (handle_all-Handled callbacks ctx)
handle_all-Handled (fota type ∷ callbacks) ctx =
    Handled-behind (fota type) tt tt (fota-Asks type) (handle_all-Handled callbacks ctx)
handle_all-Handled (cota type ∷ callbacks) ctx =
    Handled-behind (cota type) tt tt (cota-Asks type) (handle_all-Handled callbacks ctx)
