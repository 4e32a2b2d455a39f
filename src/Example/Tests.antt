-- ===== src/Example/Tests.antt =====
-- A few callbacks, a service request, and the run of the example.
use clink3_wiki.Prelude.{◌≡◌, refl, List, [], ◌∷◌, true, none, some, length, Returns, arith}
use clink3_wiki.Prelude.Int.{minus_one, pos, negsuc, ◌+ℤ◌}
use clink3_wiki.Prelude.Text.{codes}
use clink3_wiki.Prelude.Decimal.{decimal_int, read_int, IsInt}
use clink3_wiki.Example.Events.{
  ExampleContext, Callback, connected, disconnected, initialized, property_set, fota, handle_all,
}
use clink3_wiki.Example.Connection.{Handled, handle_all-Handled}
use clink3_wiki.Example.Service.{Root, Reply, service_request}
use clink3_wiki.Example.Response.{answer, service_request-answer}
use clink3_wiki.Example.Main.{MetaInfo, run_main}
use clink3_wiki.Example.Schedule.{Ran, run_main-Ran}
use clink3_wiki.Example.Startup.{Constants, Build, start_main, set_log_level, atm_init}

abbrev ctx : ExampleContext
ctx = record { master_devid = pos 1; cloud_connected = 0; master_initialized = 0 }

abbrev callbacks : List Callback
callbacks = connected ∷ initialized ∷ property_set (5 ∷ 6 ∷ []) 1 ∷ fota (pos 0) ∷ disconnected ∷ []

handle_all-Handled_example : Handled callbacks ctx (handle_all callbacks ctx)
handle_all-Handled_example = handle_all-Handled callbacks ctx

abbrev two_numbers : Root
two_numbers = record {
  is_object = true;
  number_a = some (record { is_number = true; valueint = pos 3 });
  number_b = some (record { is_number = true; valueint = negsuc 0 });
}

abbrev no_reply : Reply
no_reply = record { result = pos 0; response = none; response_len = 0; trees = 0 }

sum_IsInt : IsInt (pos 3 +ℤ negsuc 0)
unfolding ◌+ℤ◌
sum_IsInt = omega arith

service_request-answer_example :
    (service_request true (some two_numbers) (codes "Operation_Service") 17 no_reply ≡ record {
      result = pos 0;
      response = some (answer (pos 3 +ℤ negsuc 0));
      response_len = length (answer (pos 3 +ℤ negsuc 0));
      trees = 0;
    })
    × (read_int (decimal_int (pos 3 +ℤ negsuc 0)) ≡ pos 3 +ℤ negsuc 0)
service_request-answer_example =
    service_request-answer two_numbers (pos 3) (negsuc 0) no_reply refl refl refl sum_IsInt

abbrev info : MetaInfo
info = record {
  product_key = codes "key";
  product_secret = codes "ps";
  device_name = codes "name";
  device_secret = codes "ds";
}

run_main-Ran_example : Returns (Ran 1 info) (run_main 3601 (pos 1) (pos 0) info)
run_main-Ran_example = run_main-Ran 3601 1 0 info (omega arith)

abbrev constants : Constants
constants = record { region_shanghai = 0; log_debug = 5; log_none = 0 }

abbrev wifi_build : Build
wifi_build = record { atm_enabled = true; wifi_provision_enabled = true; use_dev_ap = true }

-- IOT_ATM_Init fails: nothing is registered.
atm_failure :
    start_main constants wifi_build 3601 minus_one (pos 1) (pos 0) info
    ≡ some (minus_one, set_log_level 5 ∷ atm_init ∷ [])
unfolding start_main
atm_failure = refl
