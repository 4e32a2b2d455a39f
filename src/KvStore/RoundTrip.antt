-- ===== src/KvStore/RoundTrip.antt =====
-- The table in its file: what `hash_table_put` stored, `hash_table_get` finds.
use clink3_wiki.Prelude.{
  ℕ, ◌+◌, ◌≤◌, ◌<◌, ◌≡◌, ◌≢◌, inl, inr, refl, ap, ap₂, ◌∙◌, sym, List, Bool, true, false, ◌&&◌,
  none, some, ◌==◌, if◌then◌else◌, arith, ltb, take, take-take_min, length, get_elem?,
  get_elem?-bound, All-get_elem?, get_elem?-set_self, get_elem?-set_ne, length-set, set, ◌⊎◌, All,
  min, le→ltb, Bool-cases,
}
use clink3_wiki.Prelude.Int.{pos}
use clink3_wiki.Prelude.Buffer.{memcpy}
use clink3_wiki.KvStore.Row.{Item, hash_gen, stored_length, get_row}
use clink3_wiki.KvStore.File.{
  Table, FileCalls, Calls, Found, read_kv_item, reaches, hash_table_put, hash_table_get,
}
use clink3_wiki.KvStore.Rows.{value_of, IsSized, IsPacked, put_row-get_row, put_row-get_row_other}
use clink3_wiki.KvStore.Files.{hash_table_put_done}

-- `malloc` and the calls of a read succeed.
pub record CanRead (c : Calls) : Type 0 where
  pub malloc : c.malloc_ok ≡ true
  pub opens : c.reading.open_ok ≡ true
  pub fstat : c.reading.fstat_ok ≡ true
  pub lseek : c.reading.lseek_ok ≡ true
  pub transfer : c.reading.transfer_ok ≡ true

-- What a get of a found item returns
abbrev pub found_item : Item → List ℕ → ℕ → Found
found_item p buf size = record {
  result = pos 0;
  value = memcpy buf 0 (take (min p.value_len size) p.value);
  len = pos (min p.value_len size);
}

pub read_kv_item-stored :
    (c : Calls) (table : Table) (i : ℕ) (row : List Item)
    → CanRead c
    → get_elem? table i ≡ some row
    → read_kv_item c.reading table i ≡ some row
unfolding read_kv_item
read_kv_item-stored c table i row ok e =
    rw
      (
        ok.opens,
        ok.fstat,
        ok.lseek,
        ok.transfer,
        le→ltb (length table) (i + 1) (omega (arith, get_elem?-bound table i e)),
      )
      e

pub positive-eq : (n : ℕ) → 0 < n → (n == 0) ≡ false
positive-eq n h = ground arith

if_min : (a b : ℕ) → (if ltb a b then a else b) ≡ min a b
if_min a b = ground arith

hash_table_get-found :
    (c : Calls) (table : Table) (key buf : List ℕ) (size : ℕ) (row : List Item) (p : Item)
    → CanRead c
    → 0 < size
    → get_elem? table (hash_gen key) ≡ some row
    → get_row row key ≡ some p
    → hash_table_get c table key buf (pos size) ≡ found_item p buf size
unfolding hash_table_get
hash_table_get-found c table key buf size row p ok big stored found = rw (
  positive-eq size big,
  ok.malloc,
  read_kv_item-stored c table (hash_gen key) row ok stored,
  found,
  if_min p.value_len size,
)

pub stored_length_lem : (len : ℕ) → stored_length len ≡ min len 512
stored_length_lem len = ground arith

found_bytes :
    (p : Item) (n size : ℕ) (value : List ℕ)
    → p.value_len ≡ n
    → value_of p ≡ take n value
    → take (min p.value_len size) p.value ≡ take (min n size) value
unfolding value_of
found_bytes p n size value stored same =
    sym (take-take_min (min p.value_len size) p.value_len p.value (omega arith))
    ∙ ap (take (min p.value_len size)) same
    ∙ take-take_min (min p.value_len size) n value (omega (arith, stored))
    ∙ ap (λ k. take (min k size) value) stored

-- What a get copies to `buf`
abbrev pub copied : List ℕ → List ℕ → ℕ → Found
copied buf bytes n = record { result = pos 0; value = memcpy buf 0 bytes; len = pos n }

-- After a put that returned 0, a get of the same key returns 0 and the stored bytes, cut to 512 and
-- to the size of the caller's buffer, and their number, when the calls of the get succeed. The key has
-- at most 127 characters, `value` has the bytes that are put, and the arrays of the table are whole.
pub hash_table_put-hash_table_get :
    (c d : Calls) (table : Table) (key value buf : List ℕ) (len size : ℕ)
    → All IsSized table
    → length key ≤ 127
    → len ≤ length value
    → 0 < size
    → CanRead d
    → (hash_table_put c table key value (pos len)).0 ≡ pos 0
    → hash_table_get d (hash_table_put c table key value (pos len)).1 key buf (pos size)
      ≡ copied buf (take (min (min len 512) size) value) (min (min len 512) size)
hash_table_put-hash_table_get c d table key value buf len size hs hk hv big ok e =
    let (row, row', pos_len, before, put, written) = hash_table_put_done c table key value len e in
    let n_eq = stored_length_lem len in
    let (p, found, stored, same) =
      put_row-get_row row key value (stored_length len) hk (omega (arith, n_eq, pos_len))
        (omega (arith, n_eq)) (omega (arith, n_eq, hv))
        (All-get_elem? IsSized table (hash_gen key) hs before) put in
    hash_table_get-found d _ key buf size row' p ok big
      (ap (λ t. get_elem? t (hash_gen key)) written
        ∙ get_elem?-set_self table (hash_gen key) row'
            (get_elem?-bound table (hash_gen key) before))
      found
    ∙ ap₂ (copied buf)
        (found_bytes p (stored_length len) size value stored same
          ∙ ap (λ k. take (min k size) value) n_eq)
        (ap (λ k. min k size) (stored ∙ n_eq))

guarded :
    (b : Bool) (x y : List Item)
    → (((if b then some x else none) ≡ none) × ((if b then some y else none) ≡ none))
      ⊎ (((if b then some x else none) ≡ some x) × ((if b then some y else none) ≡ some y))
guarded true x y = inr (refl, refl)
guarded false x y = inl (refl, refl)

-- Storing a row over another: a read of the place fails for both, or gives the old and the new row.
read_kv_item-set_self :
    (c : FileCalls) (table : Table) (i : ℕ) (row row' : List Item)
    → get_elem? table i ≡ some row
    → ((read_kv_item c table i ≡ none) × (read_kv_item c (set table i row') i ≡ none))
      ⊎ ((read_kv_item c table i ≡ some row) × (read_kv_item c (set table i row') i ≡ some row'))
unfolding read_kv_item
read_kv_item-set_self c table i row row' e =
    let stored = get_elem?-set_self table i row' (get_elem?-bound table i e) in
    rw (length-set table i row', e, stored) (guarded (reaches c table i && c.transfer_ok) row row')

read_kv_item-set_ne :
    (c : FileCalls) (table : Table) (i j : ℕ) (row' : List Item)
    → j ≢ i
    → read_kv_item c (set table i row') j ≡ read_kv_item c table j
unfolding read_kv_item
read_kv_item-set_ne c table i j row' ne =
    rw (length-set table i row', get_elem?-set_ne table i j row' ne)

get_same_read :
    (d : Calls) (table table' : Table) (k buf : List ℕ) (size : ℕ)
    → read_kv_item d.reading table' (hash_gen k) ≡ read_kv_item d.reading table (hash_gen k)
    → hash_table_get d table' k buf (pos size) ≡ hash_table_get d table k buf (pos size)
unfolding hash_table_get
get_same_read d table table' k buf size e = rw e

get_same_row :
    (d : Calls) (table table' : Table) (k buf : List ℕ) (size : ℕ) (row row' : List Item)
    → read_kv_item d.reading table (hash_gen k) ≡ some row
    → read_kv_item d.reading table' (hash_gen k) ≡ some row'
    → get_row row' k ≡ get_row row k
    → hash_table_get d table' k buf (pos size) ≡ hash_table_get d table k buf (pos size)
unfolding hash_table_get
get_same_row d table table' k buf size row row' e e' same = rw (e, e', same)

-- A put that returned 0 changes what a get returns for no other key, whether or not the two keys
-- have the same hash and whether or not the calls of the get succeed.
pub hash_table_put-hash_table_get_other :
    (c d : Calls) (table : Table) (key value k buf : List ℕ) (len size : ℕ)
    → All IsPacked table
    → length key ≤ 127
    → k ≢ key
    → (hash_table_put c table key value (pos len)).0 ≡ pos 0
    → hash_table_get d (hash_table_put c table key value (pos len)).1 k buf (pos size)
      ≡ hash_table_get d table k buf (pos size)
hash_table_put-hash_table_get_other c d table key value k buf len size hp hk ne e =
    let i = hash_gen key in
    let (row, row', pos_len, before, put, written) = hash_table_put_done c table key value len e in
    ap (λ t. hash_table_get d t k buf (pos size)) written ∙ elim (Bool-cases (hash_gen k == i)) [
      | inr apart ↦
          get_same_read d table (set table i row') k buf size
            (read_kv_item-set_ne d.reading table i (hash_gen k) row' (ground (arith, apart)))
      | inl collide ↦
          let same_place : hash_gen k ≡ i = ground (arith, collide) in
          let kept =
            put_row-get_row_other row key value k (stored_length len) hk
              (omega (arith, stored_length_lem len, pos_len)) ne
              (All-get_elem? IsPacked table i hp before) put in
          elim (read_kv_item-set_self d.reading table i row row' before) [
            | inl (old, new) ↦
                get_same_read d table (set table i row') k buf size (rw same_place (new ∙ sym old))
            | inr (old, new) ↦
                get_same_row d table (set table i row') k buf size row row' (rw same_place old)
                  (rw same_place new) kept
          ]
    ]
