-- ===== src/Example/Response.antt =====
-- What the service handler answers, and which trees it forgets.
use clink3_wiki.Prelude.{
  ℕ, ◌+◌, ◌-◌, ◌≡◌, ap, ◌∙◌, refl, List, ◌++◌, Bool, true, false, ◌&&◌, ◌||◌, not, Option, none,
  some, ◌==◌, if◌then◌else◌, Bool-cases, inl, inr, take, length, length-append, arith,
}
use clink3_wiki.Prelude.Int.{ℤ, pos, ◌+ℤ◌}
use clink3_wiki.Prelude.Decimal.{
  decimal_int, length-decimal_int, read_int, read_int-decimal_int, IsInt,
}
use clink3_wiki.Prelude.Text.{codes}
use clink3_wiki.Wifi.Limits.{fits}
use clink3_wiki.Example.Service.{
  Root, Reply, value_of_item, response_text, operation_service, service_request, memcmp_eq,
}

-- The answer with the number in it
abbrev pub answer : ℤ → List ℕ
answer n = codes "{\"Result\": " ++ (decimal_int n ++ codes "}")

response_text-answer : (n : ℤ) → response_text n ≡ answer n
unfolding response_text
response_text-answer n = fits 25 (answer n) (
    omega (
      arith,
      length-append (codes "{\"Result\": ") (decimal_int n ++ codes "}"),
      length-append (decimal_int n) (codes "}"),
      length-decimal_int n,
    ))

operation_service-answer :
    (a b : ℤ) (r : Reply)
    → operation_service true (some a) (some b) r ≡ record {
      result = pos 0;
      response = some (answer (a +ℤ b));
      response_len = length (answer (a +ℤ b));
      trees = r.trees - 1;
    }
unfolding operation_service
operation_service-answer a b r =
    ap
      (λ text. record {
        result = pos 0;
        response = some text;
        response_len = length text;
        trees = r.trees - 1;
      })
      (response_text-answer (a +ℤ b))

-- On a request that is an object with two numbers whose sum is an `int`, with memory for the answer,
-- the operation service returns 0 and answers with digits that read as the sum, whole and with the
-- length of the answer; the tree is deleted.
pub service_request-answer :
    (root : Root) (a b : ℤ) (r : Reply)
    → root.is_object ≡ true
    → value_of_item root.number_a ≡ some a
    → value_of_item root.number_b ≡ some b
    → IsInt (a +ℤ b)
    → (service_request true (some root) (codes "Operation_Service") 17 r ≡ record {
      result = pos 0;
      response = some (answer (a +ℤ b));
      response_len = length (answer (a +ℤ b));
      trees = r.trees;
    })
      × (read_int (decimal_int (a +ℤ b)) ≡ a +ℤ b)
unfolding service_request
service_request-answer root a b r obj ea eb small = (
  rw (obj, ea, eb)
      (operation_service-answer a b (record r { trees = r.trees + 1 })
        ∙ ap
            (λ t. record {
              result = pos 0;
              response = some (answer (a +ℤ b));
              response_len = length (answer (a +ℤ b));
              trees = t;
            })
            (omega arith)),
  read_int-decimal_int (a +ℤ b) small,
)

abbrev pub is_some : Option ℤ → Bool
is_some none = false
is_some (some z) = true

-- The service id names the operation service.
abbrev pub names_operation : List ℕ → ℕ → Bool
names_operation serviceid serviceid_len =
    length (codes "Operation_Service") == serviceid_len
    && memcmp_eq (codes "Operation_Service") (take serviceid_len serviceid)

-- The requests whose tree is not deleted: one that is no object, and an operation with two numbers
-- for which there is no memory
abbrev pub forgets : Bool → Root → Bool → Bool
forgets malloc_ok root is_operation =
    not root.is_object
    || (is_operation
        && (not malloc_ok
            && (is_some (value_of_item root.number_a) && is_some (value_of_item root.number_b))))

operation_service-trees :
    (malloc_ok : Bool) (a b : Option ℤ) (r : Reply)
    → (operation_service malloc_ok a b r).trees
      ≡ (if not malloc_ok && (is_some a && is_some b) then r.trees else r.trees - 1)
unfolding operation_service
operation_service-trees true none b r = refl
operation_service-trees false none b r = refl
operation_service-trees true (some a) none r = refl
operation_service-trees false (some a) none r = refl
operation_service-trees true (some a) (some b) r = refl
operation_service-trees false (some a) (some b) r = refl

-- A request that was parsed leaves its tree behind, undeleted, exactly when it is no object, or when
-- it is an operation with two numbers and there is no memory for the answer.
pub service_request-trees :
    (malloc_ok : Bool) (root : Root) (serviceid : List ℕ) (serviceid_len : ℕ) (r : Reply)
    → (service_request malloc_ok (some root) serviceid serviceid_len r).trees ≡ (
        if forgets malloc_ok root (names_operation serviceid serviceid_len)
        then r.trees + 1
        else r.trees)
unfolding service_request
service_request-trees malloc_ok root serviceid serviceid_len r = elim (Bool-cases root.is_object) [
  | inr other ↦ rw other refl
  | inl object ↦ elim (Bool-cases (names_operation serviceid serviceid_len)) [
    | inr foreign ↦ rw (object, foreign) (omega arith)
    | inl operation ↦
        rw (object, operation)
          (operation_service-trees malloc_ok (value_of_item root.number_a)
              (value_of_item root.number_b) (record r { trees = r.trees + 1 })
            ∙ ap
                (λ t.
                  if not malloc_ok
                    && (is_some (value_of_item root.number_a)
                        && is_some (value_of_item root.number_b))
                  then r.trees + 1
                  else t)
                (omega arith))
  ]
]
