-- ===== src/KvStore/Files.antt =====
-- The table in its file: what is set is found again, and what a failed call leaves behind.
use clink3_wiki.Prelude.{
  ℕ, zero, suc, ◌≤◌, ◌<◌, ◌≡◌, ◌≢◌, inl, inr, refl, ap, List, ◌∷◌, Bool, true, ◌||◌, not, some,
  ◌==◌, arith, length, length-set, get_elem?, set, replicate, get_elem?-set_self, get_elem?-set_ne,
  Bool-cases, Option-cases, min,
}
use clink3_wiki.Prelude.Int.{pos}
use clink3_wiki.KvStore.Row.{Item, hash_gen, stored_length, put_row, zero_row, table_col_size}
use clink3_wiki.KvStore.File.{
  Table, FileCalls, Calls, read_kv_item, write_kv_item, create_loop, create_hash_file,
  hash_table_put,
}

-- A write that reports success has stored exactly the row, and no other row of the file changes;
-- a write that fails changes at most the row itself.
pub write_kv_item_lem :
    (c : FileCalls) (torn : List Item) (table : Table) (row : List Item) (i j : ℕ)
    → ((write_kv_item c torn table row i).0 ≡ true
        → get_elem? (write_kv_item c torn table row i).1 i ≡ some row)
      × (j ≢ i → get_elem? (write_kv_item c torn table row i).1 j ≡ get_elem? table j)
      × (length (write_kv_item c torn table row i).1 ≡ length table)
unfolding write_kv_item
write_kv_item_lem c torn table row i j = (
  ground (arith, get_elem?-set_self table i row),
  ground (arith, get_elem?-set_ne table i j row, get_elem?-set_ne table i j torn),
  ground (arith, length-set table i row, length-set table i torn),
)

length-create_loop : (left n : ℕ) → length (create_loop left n).0 ≡ min left n
unfolding create_loop
length-create_loop zero n = omega arith
length-create_loop (suc left) zero = omega arith
length-create_loop (suc left) (suc n) = omega (arith, length-create_loop left n)

pub create_loop_done :
    (left n : ℕ) → left ≤ n → create_loop left n ≡ (replicate left zero_row, true)
unfolding create_loop
create_loop_done zero n h = refl
create_loop_done (suc left) zero h = absurd (omega arith)
create_loop_done (suc left) (suc n) h =
    ap (λ (r : Table × Bool). (zero_row ∷ r.0, r.1)) (create_loop_done left n (omega arith))

-- When all its writes succeed, `create_hash_file` makes 384 rows of free items.
pub create_hash_file_lem :
    (c : Calls)
    → c.create_ok ≡ true
    → c.fsync_ok ≡ true
    → 384 ≤ c.rows_ok
    → create_hash_file c ≡ (some (replicate table_col_size zero_row), true)
unfolding create_hash_file
create_hash_file_lem c hc hf hr = rw (create_loop_done 384 c.rows_ok hr, hc, hf)

pub read_kv_item_found :
    (c : FileCalls) (table : Table) (i : ℕ) (row : List Item)
    → read_kv_item c table i ≡ some row
    → get_elem? table i ≡ some row
unfolding read_kv_item
read_kv_item_found c table i row e = ground arith

write_kv_item_done :
    (c : FileCalls) (torn : List Item) (table : Table) (row : List Item) (i : ℕ)
    → (write_kv_item c torn table row i).0 ≡ true
    → (write_kv_item c torn table row i).1 ≡ set table i row
unfolding write_kv_item
write_kv_item_done c torn table row i e = ground arith

-- A put that returns 0 has read the row of the key and stored what `put_row` makes of it.
pub hash_table_put_done :
    (c : Calls) (table : Table) (key value : List ℕ) (len : ℕ)
    → (hash_table_put c table key value (pos len)).0 ≡ pos 0
    → (row : List Item) × (row' : List Item) × (0 < len)
      × (get_elem? table (hash_gen key) ≡ some row)
      × (put_row row key value (stored_length len) ≡ some row')
      × ((hash_table_put c table key value (pos len)).1 ≡ set table (hash_gen key) row')
unfolding hash_table_put
hash_table_put_done c table key value len e = elim (Bool-cases (len == 0 || not c.malloc_ok)) [
  | inl bad ↦ ground (arith, e, bad)
  | inr good ↦ elim (Option-cases (read_kv_item c.reading table (hash_gen key))) [
    | inl unread ↦ ground (arith, e, good, unread)
    | inr (row, found) ↦ elim (Option-cases (put_row row key value (stored_length len))) [
      | inl full ↦ ground (arith, e, good, found, full)
      | inr (row', put) ↦ (
        row,
        row',
        ground (arith, good),
        read_kv_item_found c.reading table (hash_gen key) row found,
        put,
        elim (Bool-cases (write_kv_item c.writing c.torn table row' (hash_gen key)).0) [
          | inl written ↦
              rw (good, found, put, written)
                (write_kv_item_done c.writing c.torn table row' (hash_gen key) written)
          | inr failed ↦ ground (arith, e, good, found, put, failed)
        ],
      )
    ]
  ]
]
