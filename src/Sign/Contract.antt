-- ===== src/Sign/Contract.antt =====
-- What `aiotMqttSign` promises: the three texts, and what it refuses.
use clink3_wiki.Prelude.{
  ℕ, ◌≤◌, ◌<◌, ◌≡◌, ◌⊎◌, inl, inr, refl, sym, subst, List, ◌++◌, arith, Option, none, some, All,
  length,
}
use clink3_wiki.Prelude.Int.{minus_one}
use clink3_wiki.Prelude.Words.{IsByte}
use clink3_wiki.Prelude.Buffer.{IsText}
use clink3_wiki.Sha256.Stream.{Context}
use clink3_wiki.Sign.Hmac.{hmac}
use clink3_wiki.Sign.Hex.{hex}
use clink3_wiki.Sign.Mqtt.{Request, Outputs, Arguments, arguments, aiot_mqtt_sign, mqtt_clinetid_kv}
use clink3_wiki.Sign.Buffers.{identity, source_text, terminated}

-- A C string of at most `n` characters
abbrev pub IsCString : ℕ → List ℕ → Type 0
IsCString n s = IsText s × All IsByte s × (length s ≤ n)

-- The arguments that the caller must give: C strings within the limits, and output buffers of the
-- sizes in the declaration.
pub record IsGiven (a : Arguments) : Type 0 where
  pub product_key : IsCString 20 a.product_key
  pub device_name : IsCString 32 a.device_name
  pub device_secret : IsCString 64 a.device_secret
  pub client_id : length a.client_id ≡ 150
  pub username : length a.username ≡ 64
  pub password : length a.password ≡ 65

-- The outputs that the protocol wants
abbrev pub signed : Arguments → Outputs
signed a =
    let id = identity a.device_name a.product_key in
    record {
      client_id = some (terminated (id ++ mqtt_clinetid_kv) a.client_id);
      username = some (terminated id a.username);
      password = some (
          terminated (hex (hmac a.device_secret (source_text a.device_name a.product_key)))
            a.password);
    }

abbrev pub pointers : Arguments → Request × Outputs
pointers a = (
  record {
    product_key = some a.product_key;
    device_name = some a.device_name;
    device_secret = some a.device_secret;
  },
  record { client_id = some a.client_id; username = some a.username; password = some a.password },
)

-- One of the six pointers is null.
abbrev pub HasNull : Request → Outputs → Type 0
HasNull req out =
    (req.product_key ≡ none)
    ⊎ (req.device_name ≡ none)
    ⊎ (req.device_secret ≡ none)
    ⊎ (out.client_id ≡ none)
    ⊎ (out.username ≡ none)
    ⊎ (out.password ≡ none)

-- One of the three strings is over its limit.
abbrev pub IsTooLong : Arguments → Type 0
IsTooLong a =
    (20 < length a.product_key) ⊎ (32 < length a.device_name) ⊎ (64 < length a.device_secret)

some_null :
    (k n s c u p : Option (List ℕ))
    → (k ≡ none) ⊎ (n ≡ none) ⊎ (s ≡ none) ⊎ (c ≡ none) ⊎ (u ≡ none) ⊎ (p ≡ none)
    → arguments
        (record { product_key = k; device_name = n; device_secret = s })
        (record { client_id = c; username = u; password = p })
      ≡ none
unfolding arguments
some_null none n s c u p h = refl
some_null (some k) none s c u p h = refl
some_null (some k) (some n) none c u p h = refl
some_null (some k) (some n) (some s) none u p h = refl
some_null (some k) (some n) (some s) (some c) none p h = refl
some_null (some k) (some n) (some s) (some c) (some u) none h = refl
some_null (some k) (some n) (some s) (some c) (some u) (some p) h = absurd (elim h [
  | inl e ↦ cc
  | inr h1 ↦ elim h1 [
    | inl e ↦ cc
    | inr h2 ↦ elim h2 [
      | inl e ↦ cc
      | inr h3 ↦ elim h3 [ inl e ↦ cc | inr h4 ↦ elim h4 [ inl e ↦ cc | inr e ↦ cc ] ]
    ]
  ]
])

null_argument : (req : Request) (out : Outputs) → HasNull req out → arguments req out ≡ none
null_argument req out h =
    some_null req.product_key req.device_name req.device_secret out.client_id out.username
      out.password h

long_refused :
    (context : Context) (a : Arguments)
    → IsTooLong a
    → aiot_mqtt_sign context (pointers a).0 (pointers a).1 ≡ (minus_one, (pointers a).1)
unfolding aiot_mqtt_sign arguments
long_refused context a long = ground (arith, long)

-- When one of the six pointers is null, or they all point to something and one of the three strings is
-- over its limit of 20, 32 or 64 characters, `aiotMqttSign` returns -1 and writes nothing.
pub aiot_mqtt_sign_refuses :
    (context : Context) (req : Request) (out : Outputs)
    → HasNull req out
      ⊎ ((a : Arguments) × (req ≡ (pointers a).0) × (out ≡ (pointers a).1) × IsTooLong a)
    → aiot_mqtt_sign context req out ≡ (minus_one, out)
unfolding aiot_mqtt_sign
aiot_mqtt_sign_refuses context req out (inl null) =
    rw (null_argument req out null, aiot_mqtt_sign) refl
aiot_mqtt_sign_refuses context req out (inr (a, same_req, same_out, long)) =
    subst (λ r. aiot_mqtt_sign context r out ≡ (minus_one, out)) (sym same_req)
      (subst (λ o. aiot_mqtt_sign context (pointers a).0 o ≡ (minus_one, o)) (sym same_out)
        (long_refused context a long))
