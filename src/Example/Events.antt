-- ===== src/Example/Events.antt =====
-- The context of the example, the callbacks that it registers, and what they ask of the cloud. The
-- IOT_Linkkit functions are not in the repository: a call of one is an entry in a list.
use clink3_wiki.Prelude.{ℕ, ◌+◌, List, [], ◌∷◌, ◌++◌, ◌==◌, if◌then◌else◌, take, replicate}
use clink3_wiki.Prelude.Int.{ℤ, pos, negsuc}
use clink3_wiki.Prelude.Decimal.{decimal_int}
use clink3_wiki.Prelude.Text.{codes}
use clink3_wiki.Wifi.Commands.{snprintf}

-- `user_example_ctx_t`
pub record ExampleContext : Type 0 where
  pub master_devid : ℤ
  pub cloud_connected : ℕ
  pub master_initialized : ℕ

-- The messages that the example reports or queries
pub data Message : Type 0 where
  post_property : Message
  deviceinfo_update : Message
  deviceinfo_delete : Message
  query_fota_data : Message
  query_cota_data : Message

-- A call of IOT_Linkkit_Report, IOT_Linkkit_TriggerEvent or IOT_Linkkit_Query for the master device
pub data CloudCall : Type 0 where
  report : Message → List ℕ → CloudCall
  trigger_event : List ℕ → List ℕ → CloudCall
  query : Message → List ℕ → CloudCall

-- The callbacks but for the service request, with the arguments that they use. The replies only
-- print.
pub data Callback : Type 0 where
  connected : Callback
  disconnected : Callback
  initialized : Callback
  report_reply : Callback
  trigger_event_reply : Callback
  property_set : List ℕ → ℕ → Callback
  timestamp_reply : Callback
  fota : ℤ → Callback
  cota : ℤ → Callback

-- `type == 0`
abbrev pub is_new : ℤ → List CloudCall → List CloudCall
is_new (pos n) calls = if n == 0 then calls else []
is_new (negsuc n) calls = []

abbrev pub user_connected_event_handler : ExampleContext → ExampleContext
user_connected_event_handler ctx = record ctx { cloud_connected = 1 }

abbrev pub user_disconnected_event_handler : ExampleContext → ExampleContext
user_disconnected_event_handler ctx = record ctx { cloud_connected = 0 }

abbrev pub user_initialized : ExampleContext → ExampleContext
user_initialized ctx = record ctx { master_initialized = 1 }

abbrev pub user_property_set_event_handler : List ℕ → ℕ → CloudCall
user_property_set_event_handler request request_len =
    report post_property (take request_len request)

-- The buffer is zeroed, and all of it is sent.
abbrev pub user_fota_event_handler : ℤ → List CloudCall
user_fota_event_handler type = is_new type (query query_fota_data (replicate 128 0) ∷ [])

abbrev pub user_cota_event_handler : ℤ → List CloudCall
user_cota_event_handler type = is_new type (query query_cota_data (replicate 128 0) ∷ [])

-- The context and the calls behind a callback; each returns 0, and the replies only print.
unfoldable pub handle : Callback → ExampleContext → ExampleContext × List CloudCall
handle connected ctx = (user_connected_event_handler ctx, [])
handle disconnected ctx = (user_disconnected_event_handler ctx, [])
handle initialized ctx = (user_initialized ctx, [])
handle report_reply ctx = (ctx, [])
handle trigger_event_reply ctx = (ctx, [])
handle (property_set request request_len) ctx =
    (ctx, user_property_set_event_handler request request_len ∷ [])
handle timestamp_reply ctx = (ctx, [])
handle (fota type) ctx = (ctx, user_fota_event_handler type)
handle (cota type) ctx = (ctx, user_cota_event_handler type)

-- The callbacks in the order in which they come
unfoldable pub handle_all : List Callback → ExampleContext → ExampleContext × List CloudCall
handle_all [] ctx = (ctx, [])
handle_all (c ∷ callbacks) ctx =
    let (ctx', calls) = handle c ctx in
    let (ctx'', more) = handle_all callbacks ctx' in (ctx'', calls ++ more)

-- The payload of `user_post_property` for the counter `cnt`
unfoldable pub property_payload : ℕ → List ℕ
unfolding snprintf
property_payload cnt = snprintf 30 (codes "{\"Counter\": " ++ (decimal_int (pos cnt) ++ codes "}"))

-- `user_post_property`, from and to its static counter
unfoldable pub user_post_property : ℕ → CloudCall × ℕ
user_post_property cnt = (report post_property (property_payload cnt), cnt + 1)

unfoldable pub user_post_event : CloudCall
user_post_event = trigger_event (codes "HardwareError") (codes "{\"ErrorCode\": 0}")

unfoldable pub user_deviceinfo_update : CloudCall
user_deviceinfo_update =
    report deviceinfo_update (codes "[{\"attrKey\":\"abc\",\"attrValue\":\"hello,world\"}]")

unfoldable pub user_deviceinfo_delete : CloudCall
user_deviceinfo_delete = report deviceinfo_delete (codes "[{\"attrKey\":\"abc\"}]")
