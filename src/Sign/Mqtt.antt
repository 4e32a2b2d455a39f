-- ===== src/Sign/Mqtt.antt =====
-- `aiotMqttSign` of aiot_mqtt_sign.c.
use clink3_wiki.Prelude.{
  ℕ, ◌+◌, List, [], ◌∷◌, Option, none, some, Bool, ◌||◌, ltb, if◌then◌else◌, length, take,
  replicate,
}
use clink3_wiki.Prelude.Int.{ℤ, pos, minus_one}
use clink3_wiki.Prelude.Buffer.{memcpy, strlen}
use clink3_wiki.Prelude.Text.{codes, ◌>>=◌}
use clink3_wiki.Sha256.Stream.{Context}
use clink3_wiki.Sign.Hmac.{hmac_sha256}
use clink3_wiki.Sign.Hex.{hex2str}

abbrev pub productkey_maxlen : ℕ
productkey_maxlen = 20

abbrev pub devicename_maxlen : ℕ
devicename_maxlen = 32

abbrev pub devicesecret_maxlen : ℕ
devicesecret_maxlen = 64

abbrev pub sign_source_maxlen : ℕ
sign_source_maxlen = 200

abbrev pub password_maxlen : ℕ
password_maxlen = 65

abbrev pub timestamp_value : List ℕ
timestamp_value = codes "2524608000000"

abbrev pub mqtt_clinetid_kv : List ℕ
mqtt_clinetid_kv =
    codes "|timestamp=2524608000000,_v=paho-c-1.0.0,securemode=3,signmethod=hmacsha256,lan=C|"

-- The three `const char *` arguments, by the characters before their zero; `none` is NULL.
pub record Request : Type 0 where
  pub product_key : Option (List ℕ)
  pub device_name : Option (List ℕ)
  pub device_secret : Option (List ℕ)

-- What the three output arguments point to
pub record Outputs : Type 0 where
  pub client_id : Option (List ℕ)
  pub username : Option (List ℕ)
  pub password : Option (List ℕ)

-- The six arguments when none of them is NULL
pub record Arguments : Type 0 where
  pub product_key : List ℕ
  pub device_name : List ℕ
  pub device_secret : List ℕ
  pub client_id : List ℕ
  pub username : List ℕ
  pub password : List ℕ

unfoldable pub arguments : Request → Outputs → Option Arguments
arguments req out = do
  product_key ← req.product_key
  device_name ← req.device_name
  device_secret ← req.device_secret
  client_id ← out.client_id
  username ← out.username
  password ← out.password
  some (record {
    product_key = product_key;
    device_name = device_name;
    device_secret = device_secret;
    client_id = client_id;
    username = username;
    password = password;
  })

-- memcpy(buf + strlen(buf), src, strlen(src))
abbrev pub append_text : List ℕ → List ℕ → List ℕ
append_text buf src = memcpy buf (strlen buf) src

-- `deviceId`: the first copy goes to the start of the zeroed array.
unfoldable pub device_id : List ℕ → List ℕ → List ℕ
device_id device_name product_key =
    let start = memcpy (replicate (productkey_maxlen + devicename_maxlen + 2) 0) 0 device_name in
    append_text (append_text start (codes "&")) product_key

-- `memcpy(buf, text, strlen(text))` and the zero behind it
unfoldable pub put_text : List ℕ → List ℕ → List ℕ
put_text buf text = memcpy (memcpy buf 0 (take (strlen text) text)) (strlen text) (0 ∷ [])

unfoldable pub put_client_id : List ℕ → List ℕ → List ℕ
put_client_id buf id =
    let named = memcpy buf 0 (take (strlen id) id) in
    let complete = memcpy named (strlen id) mqtt_clinetid_kv in
    memcpy complete (strlen id + length mqtt_clinetid_kv) (0 ∷ [])

-- `macSrc`
unfoldable pub mac_source : List ℕ → List ℕ → List ℕ → List ℕ
mac_source id device_name product_key =
    let s0 = memcpy (replicate sign_source_maxlen 0) 0 (codes "clientId") in
    let s1 = append_text s0 (take (strlen id) id) in
    let s2 = append_text s1 (codes "deviceName") in
    let s3 = append_text s2 device_name in
    let s4 = append_text s3 (codes "productKey") in
    let s5 = append_text s4 product_key in
    let s6 = append_text s5 (codes "timestamp") in append_text s6 timestamp_value

-- `macRes` is zeroed before the call. `context` is what the stack of `utils_hmac_sha256` holds.
unfoldable pub mac_result : Context → List ℕ → List ℕ → Option (List ℕ)
mac_result context source device_secret =
    hmac_sha256 context (some source) (strlen source) (some device_secret) (length device_secret)
      (some (replicate 32 0))

unfoldable pub put_password : Option (List ℕ) → List ℕ → Option (List ℕ)
put_password none buf = none
put_password (some mac) buf = some (hex2str mac 32 (memcpy buf 0 (replicate password_maxlen 0)))

unfoldable pub sign : Context → Arguments → Outputs
sign context a =
    let id = device_id a.device_name a.product_key in
    let mac = mac_result context (mac_source id a.device_name a.product_key) a.device_secret in
    record {
      client_id = some (put_client_id a.client_id id);
      username = some (put_text a.username id);
      password = put_password mac a.password;
    }

abbrev pub too_long : Arguments → Bool
too_long a =
    ltb productkey_maxlen (length a.product_key)
    || ltb devicename_maxlen (length a.device_name)
    || ltb devicesecret_maxlen (length a.device_secret)

-- The return value, and what the output arguments point to afterwards.
unfoldable pub aiot_mqtt_sign : Context → Request → Outputs → ℤ × Outputs
aiot_mqtt_sign context req out = elim (arguments req out) [
  | none ↦ (minus_one, out)
  | some a ↦ if too_long a then (minus_one, out) else (pos 0, sign context a)
]
