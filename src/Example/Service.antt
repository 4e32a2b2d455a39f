-- ===== src/Example/Service.antt =====
-- `user_service_request_event_handler`. cJSON is not in the repository: what its functions find in a
-- request is an argument, and so is whether `HAL_Malloc` succeeds.
use clink3_wiki.Prelude.{
  ℕ, ◌+◌, ◌-◌, List, [], ◌∷◌, ◌++◌, Bool, true, false, ◌&&◌, Option, none, some, ◌==◌,
  if◌then◌else◌, take, length,
}
use clink3_wiki.Prelude.Int.{ℤ, pos, minus_one, ◌+ℤ◌}
use clink3_wiki.Prelude.Decimal.{decimal_int}
use clink3_wiki.Prelude.Text.{codes}
use clink3_wiki.Wifi.Commands.{snprintf}

-- `cJSON_IsNumber` and `valueint` of an item
pub record Number : Type 0 where
  pub is_number : Bool
  pub valueint : ℤ

-- The tree that `cJSON_Parse` returns: `cJSON_IsObject`, and the items "NumberA" and "NumberB"
pub record Root : Type 0 where
  pub is_object : Bool
  pub number_a : Option Number
  pub number_b : Option Number

-- The result, `*response`, `*response_len`, and the number of parsed trees that are not deleted
pub record Reply : Type 0 where
  pub result : ℤ
  pub response : Option (List ℕ)
  pub response_len : ℕ
  pub trees : ℕ

-- `memcmp(s, t, n) == 0` for arrays of at least `n` bytes
unfoldable pub memcmp_eq : List ℕ → List ℕ → Bool
memcmp_eq [] [] = true
memcmp_eq [] (d ∷ t) = false
memcmp_eq (c ∷ s) [] = false
memcmp_eq (c ∷ s) (d ∷ t) = c == d && memcmp_eq s t

-- `item == NULL || !cJSON_IsNumber(item)` is the case `none`.
abbrev pub value_of_item : Option Number → Option ℤ
value_of_item none = none
value_of_item (some item) = if item.is_number then some item.valueint else none

-- `strlen(response_fmt) + 10 + 1`
abbrev pub response_size : ℕ
response_size = length (codes "{\"Result\": %d}") + 10 + 1

-- The text that HAL_Snprintf writes
unfoldable pub response_text : ℤ → List ℕ
unfolding snprintf
response_text n = snprintf response_size (codes "{\"Result\": " ++ (decimal_int n ++ codes "}"))

-- The operation service, with the values of the two items and a tree that is not deleted yet. Their sum
-- must be an `int`; C leaves another one undefined.
unfoldable pub operation_service : Bool → Option ℤ → Option ℤ → Reply → Reply
unfolding response_text
operation_service malloc_ok none b r = record r { result = minus_one; trees = r.trees - 1 }
operation_service malloc_ok (some a) none r = record r { result = minus_one; trees = r.trees - 1 }
operation_service false (some a) (some b) r = record r {
  result = minus_one;
  response = none;
  response_len = response_size;
}
operation_service true (some a) (some b) r = record {
  result = pos 0;
  response = some (response_text (a +ℤ b));
  response_len = length (response_text (a +ℤ b));
  trees = r.trees - 1;
}

-- The handler, from the values before the call
unfoldable pub service_request : Bool → Option Root → List ℕ → ℕ → Reply → Reply
unfolding operation_service memcmp_eq
service_request malloc_ok none serviceid serviceid_len r = record r { result = minus_one }
service_request malloc_ok (some root) serviceid serviceid_len r =
    let name = codes "Operation_Service" in
    let parsed = record r { trees = r.trees + 1 } in
    if root.is_object
    then (if length name == serviceid_len && memcmp_eq name (take serviceid_len serviceid)
        then operation_service malloc_ok (value_of_item root.number_a) (value_of_item root.number_b)
            parsed
        else record parsed { result = pos 0; trees = parsed.trees - 1 })
    else record parsed { result = minus_one }
