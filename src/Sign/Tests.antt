-- ===== src/Sign/Tests.antt =====
-- A device that signs, and calls that are refused.
use clink3_wiki.Prelude.{
  ℕ, ◌*◌, ◌≡◌, inl, inr, refl, List, [], ◌∷◌, ◌++◌, none, some, arith, length, take, drop,
  replicate, All,
}
use clink3_wiki.Prelude.Int.{minus_one}
use clink3_wiki.Prelude.Text.{codes}
use clink3_wiki.Prelude.Words.{IsByte}
use clink3_wiki.Sha256.Stream.{Context, zero_eight}
use clink3_wiki.Sign.Hmac.{hmac, hmac_sha256, hmac_sha256-hmac}
use clink3_wiki.Sign.Hex.{hex, hex2str, hex2str-hex}
use clink3_wiki.Sign.Mqtt.{Request, Arguments, aiot_mqtt_sign}
use clink3_wiki.Sign.Contract.{pointers, aiot_mqtt_sign_refuses}

abbrev stack : Context
stack = record { total0 = 5; total1 = 5; state = zero_eight; buffer = replicate 64 3; is224 = 1 }

abbrev device : Arguments
device = record {
  product_key = codes "a1X2bEnP82z";
  device_name = codes "test_01";
  device_secret = codes "jZ5z0";
  client_id = replicate 150 0;
  username = replicate 64 0;
  password = replicate 65 0;
}

abbrev nameless : Request
nameless = record {
  product_key = some (codes "a1X2bEnP82z");
  device_name = none;
  device_secret = some (codes "jZ5z0");
}

aiot_mqtt_sign_refuses_example :
    aiot_mqtt_sign stack nameless (pointers device).1 ≡ (minus_one, (pointers device).1)
aiot_mqtt_sign_refuses_example =
    aiot_mqtt_sign_refuses stack nameless (pointers device).1 (inl (inr (inl refl)))

abbrev message : List ℕ
message = 0x68 ∷ 0x69 ∷ []

message-IsByte : All IsByte message
message-IsByte = omega arith

hmac_sha256-hmac_example :
    hmac_sha256 stack (some message) 2 (some message) 1 (some (replicate 32 0))
    ≡ some (hmac (take 1 message) (take 2 message))
hmac_sha256-hmac_example =
    hmac_sha256-hmac stack message message (replicate 32 0) 2 1 message-IsByte message-IsByte
      (omega arith) (omega arith) (omega arith) (omega arith)

hex2str-hex_example :
    hex2str message (length message) (replicate 5 0)
    ≡ hex message ++ drop (2 * length message) (replicate 5 0)
hex2str-hex_example = hex2str-hex message (replicate 5 0) (omega arith)
