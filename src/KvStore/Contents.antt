-- ===== src/KvStore/Contents.antt =====
-- The table as a map from keys to values: what any sequence of puts into a new file leaves behind.
use clink3_wiki.Prelude.{
  ℕ, zero, suc, ◌≤◌, ◌<◌, ◌≡◌, ◌≢◌, refl, ap, ◌∙◌, sym, subst, List, [], ◌∷◌, true, Option, none,
  some, if◌then◌else◌, arith, take, take-take_min, length, length-take, get_elem?, All,
  All-get_elem?, min, replicate, All-replicate, inl, inr, ◌⊎◌, Bool-cases, Option-cases, ◌||◌, not,
  ◌==◌,
}
use clink3_wiki.Prelude.Int.{pos}
use clink3_wiki.KvStore.Row.{
  Item, hash_gen, stored_length, get_row, put_row, strcmp_eq, zero_row, zero_item, table_col_size,
}
use clink3_wiki.KvStore.File.{
  Table, Calls, FileCalls, reaches, Found, not_found, hash_table_put, hash_table_get, read_kv_item,
  write_kv_item,
}
use clink3_wiki.KvStore.Rows.{IsSized, IsPacked, put_row-IsPacked, get_row-free, strcmp_eq_iff}
use clink3_wiki.KvStore.Files.{hash_table_put_done}
use clink3_wiki.KvStore.RoundTrip.{
  CanRead, copied, positive-eq, read_kv_item-stored, stored_length_lem,
  hash_table_put-hash_table_get, hash_table_put-hash_table_get_other,
}
use clink3_wiki.KvStore.Whole.{All-set}

-- The abstract store: the puts that succeeded, the last one first
abbrev pub Bindings : Type 0
Bindings = List (List ℕ × List ℕ)

unfoldable pub lookup : Bindings → List ℕ → Option (List ℕ)
lookup [] key = none
lookup ((k, v) ∷ m) key = if strcmp_eq k key then some v else lookup m key

-- What a get should return for a value, or for none
unfoldable pub answer : List ℕ → ℕ → Option (List ℕ) → Found
answer buf size none = not_found buf (pos size)
answer buf size (some v) = copied buf (take (min (length v) size) v) (min (length v) size)

-- A table behind puts, and the bindings that it should have: from the rows of a new file, by puts
-- that return 0 and by others, of which none stops in the middle of its row. Keys have at most 127
-- characters, and the bytes that are put are there.
pub data Stores : Table → Bindings → Type 0 where
  created : Stores (replicate table_col_size zero_row) []
  put :
      {table : Table} {m : Bindings} (c : Calls) (key value : List ℕ) (len : ℕ)
      → Stores table m
      → length key ≤ 127
      → len ≤ length value
      → (hash_table_put c table key value (pos len)).0 ≡ pos 0
      → Stores (hash_table_put c table key value (pos len)).1 ((key, take (min len 512) value) ∷ m)
  refused :
      {table : Table} {m : Bindings} (c : Calls) (key value : List ℕ) (len : ℕ)
      → Stores table m
      → c.writing.transfer_ok ≡ true
      → (hash_table_put c table key value (pos len)).0 ≢ pos 0
      → Stores (hash_table_put c table key value (pos len)).1 m

write_whole :
    (c : FileCalls) (torn : List Item) (table : Table) (row : List Item) (i : ℕ)
    → c.transfer_ok ≡ true
    → ((write_kv_item c torn table row i).0 ≡ true) ⊎ ((write_kv_item c torn table row i).1 ≡ table)
unfolding write_kv_item
write_whole c torn table row i e = elim (Bool-cases (reaches c table i)) [
  | inl near ↦ inl (rw (near, e) refl)
  | inr far ↦ inr (rw far refl)
]

hash_table_put_kept :
    (c : Calls) (table : Table) (key value : List ℕ) (len : ℕ)
    → c.writing.transfer_ok ≡ true
    → (hash_table_put c table key value (pos len)).0 ≢ pos 0
    → (hash_table_put c table key value (pos len)).1 ≡ table
unfolding hash_table_put
hash_table_put_kept c table key value len whole ne =
    elim (Bool-cases (len == 0 || not c.malloc_ok)) [
      | inl bad ↦ rw bad refl
      | inr good ↦ elim (Option-cases (read_kv_item c.reading table (hash_gen key))) [
        | inl unread ↦ rw (good, unread) refl
        | inr (row, found) ↦ elim (Option-cases (put_row row key value (stored_length len))) [
          | inl full ↦ rw (good, found, full) refl
          | inr (row', changed) ↦
              elim (Bool-cases (write_kv_item c.writing c.torn table row' (hash_gen key)).0) [
                | inl done ↦ absurd (ne (rw (good, found, changed, done) refl))
                | inr failed ↦ elim (write_whole c.writing c.torn table row' (hash_gen key) whole) [
                  | inl done ↦ absurd cc
                  | inr same ↦ rw (good, found, changed, failed) same
                ]
              ]
        ]
      ]
    ]

get_elem?-replicate {ℓ} :
    {A : Type ℓ} (n i : ℕ) (a : A) → i < n → get_elem? (replicate n a) i ≡ some a
get_elem?-replicate zero i a h = absurd (omega arith)
get_elem?-replicate (suc n) zero a h = refl
get_elem?-replicate (suc n) (suc i) a h = get_elem?-replicate n i a (omega arith)

hash_gen-bound : (key : List ℕ) → hash_gen key < table_col_size
unfolding hash_gen
hash_gen-bound key = omega arith

record IsRegular (table : Table) : Type 0 where
  packed : All IsPacked table
  sized : All IsSized table

Stores-IsRegular : {table : Table} {m : Bindings} → Stores table m → IsRegular table
Stores-IsRegular created = record {
  packed = All-replicate IsPacked 384 zero_row (λ e. (refl, tt), (λ e. tt, tt));
  sized = All-replicate IsSized 384 zero_row (refl, (refl, tt));
}
Stores-IsRegular (put c key value len s short enough done) =
    let r = Stores-IsRegular s in
    let (row, row', pos_len, before, changed, written) =
      hash_table_put_done c _ key value len done in
    let positive : 0 < stored_length len = omega (arith, stored_length_lem len, pos_len) in
    let (packed, sized) =
      put_row-IsPacked row key value (stored_length len) positive changed
        (All-get_elem? IsPacked _ (hash_gen key) r.packed before)
        (All-get_elem? IsSized _ (hash_gen key) r.sized before) in
    subst IsRegular (sym written) (record {
      packed = All-set IsPacked _ (hash_gen key) row' packed r.packed;
      sized = All-set IsSized _ (hash_gen key) row' sized r.sized;
    })
Stores-IsRegular (refused c key value len s whole failed) =
    subst IsRegular (sym (hash_table_put_kept c _ key value len whole failed)) (Stores-IsRegular s)

hash_table_get-missing :
    (c : Calls) (table : Table) (key buf : List ℕ) (size : ℕ) (row : List Item)
    → CanRead c
    → 0 < size
    → get_elem? table (hash_gen key) ≡ some row
    → get_row row key ≡ none
    → hash_table_get c table key buf (pos size) ≡ not_found buf (pos size)
unfolding hash_table_get
hash_table_get-missing c table key buf size row ok big stored missing = rw (
  positive-eq size big,
  ok.malloc,
  read_kv_item-stored c table (hash_gen key) row ok stored,
  missing,
)

-- What the put of the key itself makes of the answer
answer_put :
    (buf value : List ℕ) (len size : ℕ)
    → len ≤ length value
    → copied buf (take (min (min len 512) size) value) (min (min len 512) size)
      ≡ answer buf size (some (take (min len 512) value))
unfolding answer
answer_put buf value len size enough =
    let n : length (take (min len 512) value) ≡ min len 512 =
      omega (arith, length-take (min len 512) value) in
    rw n (
      ap (λ v. copied buf v (min (min len 512) size))
        (sym (take-take_min (min (min len 512) size) (min len 512) value (omega arith))))

lookup_here :
    (k v : List ℕ) (m : Bindings) (key : List ℕ) → k ≡ key → lookup ((k, v) ∷ m) key ≡ some v
unfolding lookup
lookup_here k v m key e = let same = (strcmp_eq_iff k key).1 e in rw same refl

lookup_there :
    (k v : List ℕ) (m : Bindings) (key : List ℕ) → k ≢ key → lookup ((k, v) ∷ m) key ≡ lookup m key
unfolding lookup
lookup_there k v m key ne = ground (arith, strcmp_eq_iff k key)

-- Behind any sequence of puts into a new file, a get whose calls succeed returns the value of the
-- last successful put of its key, cut to 512 bytes and to the buffer of the caller, and -1 for a key
-- without one. The keys put have at most 127 characters, and no put stops in the middle of a row.
pub hash_table_get-lookup :
    {table : Table} {m : Bindings}
    → Stores table m
    → (d : Calls) (key buf : List ℕ) (size : ℕ) → CanRead d
    → 0 < size
    → hash_table_get d table key buf (pos size) ≡ answer buf size (lookup m key)
hash_table_get-lookup created d key buf size ok big =
    unfold lookup answer in
    hash_table_get-missing d _ key buf size zero_row ok big
      (get_elem?-replicate table_col_size (hash_gen key) zero_row (hash_gen-bound key))
      (get_row-free zero_item (zero_item ∷ []) key refl)
hash_table_get-lookup (put {table} {m} c k value len s short enough done) d key buf size ok big =
    elim (Bool-cases (strcmp_eq k key)) [
      | inl same ↦
          let e = (strcmp_eq_iff k key).0 same in
          let v = take (min len 512) value in
          subst
            (λ key'.
              hash_table_get d (hash_table_put c table k value (pos len)).1 key' buf (pos size)
              ≡ answer buf size (lookup ((k, v) ∷ m) key'))
            e
            (hash_table_put-hash_table_get c d table k value buf len size (Stores-IsRegular s).sized
                short enough big ok done
              ∙ answer_put buf value len size enough
              ∙ ap (answer buf size) (sym (lookup_here k v m k refl)))
      | inr other ↦
          let ne : k ≢ key = λ e. cc ((strcmp_eq_iff k key).1 e) in
          hash_table_put-hash_table_get_other c d table k value key buf len size
            (Stores-IsRegular s).packed short (λ e. ne (sym e)) done
          ∙ hash_table_get-lookup s d key buf size ok big
          ∙ ap (answer buf size) (sym (lookup_there k (take (min len 512) value) m key ne))
    ]
hash_table_get-lookup (refused c k value len s whole failed) d key buf size ok big =
    ap (λ t. hash_table_get d t key buf (pos size))
      (hash_table_put_kept c _ k value len whole failed)
    ∙ hash_table_get-lookup s d key buf size ok big
