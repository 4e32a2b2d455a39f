-- ===== src/KvStore/File.antt =====
-- `read_kv_item`, `write_kv_item`, `create_hash_file` and the `hash_table_` functions of
-- Vendors/ubuntu/wrapper.c. What malloc and the file calls return is an argument.
use clink3_wiki.Prelude.{
  ℕ, zero, suc, ◌+◌, List, [], ◌∷◌, Bool, true, false, ◌&&◌, ◌||◌, not, Option, none, some, ltb,
  ◌==◌, if◌then◌else◌, take, length, get_elem?, set,
}
use clink3_wiki.Prelude.Int.{ℤ, pos, negsuc, minus_one}
use clink3_wiki.Prelude.Buffer.{memcpy}
use clink3_wiki.KvStore.Row.{
  Item, zero_row, hash_gen, stored_length, put_row, get_row, rm_row, table_col_size,
}

-- The file by its rows; its size is their number times the size of a row.
abbrev pub Table : Type 0
Table = List (List Item)

-- Whether `open`, `fstat`, `lseek` and the `read` or `write` of a whole row succeed
pub record FileCalls : Type 0 where
  pub open_ok : Bool
  pub fstat_ok : Bool
  pub lseek_ok : Bool
  pub transfer_ok : Bool

-- The calls of one operation. `torn` is what an incomplete `write` leaves in the row. Of
-- `create_hash_file`: whether `open` and `fsync` succeed, and how many rows `write` can store.
pub record Calls : Type 0 where
  pub malloc_ok : Bool
  pub reading : FileCalls
  pub writing : FileCalls
  pub torn : List Item
  pub create_ok : Bool
  pub rows_ok : ℕ
  pub fsync_ok : Bool

-- The tests before the transfer: `open`, `fstat`, the size of the file, `lseek`
abbrev pub reaches : FileCalls → Table → ℕ → Bool
reaches c table location =
    c.open_ok && c.fstat_ok && not (ltb (length table) (location + 1)) && c.lseek_ok

-- The row that is read, or `none` for -1
unfoldable pub read_kv_item : FileCalls → Table → ℕ → Option (List Item)
read_kv_item c table location =
    if reaches c table location && c.transfer_ok then get_elem? table location else none

-- Whether it returns 0, and the file afterwards
unfoldable pub write_kv_item : FileCalls → List Item → Table → List Item → ℕ → Bool × Table
write_kv_item c torn table row location =
    if reaches c table location
    then (if c.transfer_ok
        then (true, set table location row)
        else (false, set table location torn))
    else (false, table)

-- The `for` loop over the rows, with `left` to go: the rows written, and whether none failed
unfoldable pub create_loop : ℕ → ℕ → Table × Bool
create_loop zero rows_ok = ([], true)
create_loop (suc left) zero = ([], false)
create_loop (suc left) (suc rows_ok) =
    let (table, done) = create_loop left rows_ok in (zero_row ∷ table, done)

-- The file afterwards, and whether it returns 0
unfoldable pub create_hash_file : Calls → Option Table × Bool
create_hash_file c =
    let (table, done) = create_loop table_col_size c.rows_ok in
    if c.create_ok then (some table, done && c.fsync_ok) else (none, false)

-- `hash_table_put` for a file that exists, with its parameters checked by the caller: the result
-- and the file afterwards
unfoldable pub hash_table_put : Calls → Table → List ℕ → List ℕ → ℤ → ℤ × Table
hash_table_put c table key value (negsuc m) = (minus_one, table)
hash_table_put c table key value (pos len) =
    let i = hash_gen key in
    if len == 0 || not c.malloc_ok
    then (minus_one, table)
    else elim (read_kv_item c.reading table i) [
      | none ↦ (minus_one, table)
      | some row ↦ elim (put_row row key value (stored_length len)) [
        | none ↦ (minus_one, table)
        | some row' ↦
            let (done, table') = write_kv_item c.writing c.torn table row' i in
            if done then (pos 0, table') else (minus_one, table')
      ]
    ]

-- What `hash_table_get` returns, the buffer at `value` and `*len` afterwards
pub record Found : Type 0 where
  pub result : ℤ
  pub value : List ℕ
  pub len : ℤ

abbrev pub not_found : List ℕ → ℤ → Found
not_found value len = record { result = minus_one; value = value; len = len }

unfoldable pub hash_table_get : Calls → Table → List ℕ → List ℕ → ℤ → Found
hash_table_get c table key value (negsuc m) = not_found value (negsuc m)
hash_table_get c table key value (pos len) =
    if len == 0 || not c.malloc_ok
    then not_found value (pos len)
    else elim (read_kv_item c.reading table (hash_gen key)) [
      | none ↦ not_found value (pos len)
      | some row ↦ elim (get_row row key) [
        | none ↦ not_found value (pos len)
        | some p ↦
            let n = if ltb p.value_len len then p.value_len else len in
            record { result = pos 0; value = memcpy value 0 (take n p.value); len = pos n }
      ]
    ]

unfoldable pub hash_table_rm : Calls → Table → List ℕ → ℤ × Table
hash_table_rm c table key =
    if c.malloc_ok
    then elim (read_kv_item c.reading table (hash_gen key)) [
      | none ↦ (minus_one, table)
      | some row ↦
          let (done, table') =
            write_kv_item c.writing c.torn table (rm_row row key) (hash_gen key) in
          if done then (pos 0, table') else (minus_one, table')
    ]
    else (minus_one, table)
