-- ===== src/KvStore/Whole.antt =====
-- What the operations on the file keep: the arrays of its items are whole.
use clink3_wiki.Prelude.{
  ℕ, zero, suc, refl, List, [], ◌∷◌, ◌||◌, not, Option, none, some, inl, inr, All, All-get_elem?,
  Bool-cases, Option-cases, set, ◌==◌,
}
use clink3_wiki.Prelude.Int.{ℤ, pos, negsuc}
use clink3_wiki.KvStore.Row.{
  Item, zero_row, strcmp_eq, hash_gen, stored_length, put_row, rm_row, table_col_size,
}
use clink3_wiki.KvStore.File.{
  Table, FileCalls, Calls, reaches, read_kv_item, write_kv_item, create_loop, create_hash_file,
  hash_table_put, hash_table_rm,
}
use clink3_wiki.KvStore.Files.{read_kv_item_found}
use clink3_wiki.KvStore.Rows.{IsSized, put_row-IsSized}
use clink3_wiki.KvStore.Handle.{rows_of, put_back}

-- The value of each item on disk has its 512 bytes.
abbrev pub IsWhole : Option Table → Type 0
IsWhole disk = All IsSized (rows_of disk)

pub All-set {ℓ κ} :
    {A : Type ℓ} (P : A → Type κ) (xs : List A) (i : ℕ) (x : A)
    → P x
    → All P xs
    → All P (set xs i x)
All-set P [] i x h hs = tt
All-set P (y ∷ xs) zero x h hs = (h, hs.1)
All-set P (y ∷ xs) (suc i) x h hs = (hs.0, All-set P xs i x h hs.1)

zero_row-IsSized : IsSized zero_row
zero_row-IsSized = (refl, (refl, tt))

create_loop-IsSized : (left n : ℕ) → All IsSized (create_loop left n).0
unfolding create_loop
create_loop-IsSized zero n = tt
create_loop-IsSized (suc left) zero = tt
create_loop-IsSized (suc left) (suc n) = (zero_row-IsSized, create_loop-IsSized left n)

pub create_hash_file-IsWhole : (c : Calls) → IsWhole (create_hash_file c).0
unfolding create_hash_file
create_hash_file-IsWhole c = elim (Bool-cases c.create_ok) [
  | inl e ↦ rw e (create_loop-IsSized table_col_size c.rows_ok)
  | inr e ↦ rw e tt
]

write_kv_item-IsSized :
    (c : FileCalls) (torn : List Item) (table : Table) (row : List Item) (i : ℕ)
    → IsSized torn
    → IsSized row
    → All IsSized table
    → All IsSized (write_kv_item c torn table row i).1
unfolding write_kv_item
write_kv_item-IsSized c torn table row i ht hr h = elim (Bool-cases (reaches c table i)) [
  | inr far ↦ rw far h
  | inl near ↦ rw near (elim (Bool-cases c.transfer_ok) [
    | inl done ↦ rw done (All-set IsSized table i row hr h)
    | inr stopped ↦ rw stopped (All-set IsSized table i torn ht h)
  ])
]

rm_row-IsSized : (row : List Item) (key : List ℕ) → IsSized row → IsSized (rm_row row key)
unfolding rm_row
rm_row-IsSized [] key h = tt
rm_row-IsSized (p ∷ row) key h = elim (Bool-cases (p.value_len == 0)) [
  | inl free ↦ rw free h
  | inr used ↦ rw used (elim (Bool-cases (strcmp_eq key p.key)) [
    | inl same ↦ rw same (refl, rm_row-IsSized row key h.1)
    | inr other ↦ rw other (h.0, rm_row-IsSized row key h.1)
  ])
]

module _ (c : Calls) (table : Table) (torn : IsSized c.torn) (h : All IsSized table) where
  pub hash_table_put-IsSized :
      (key value : List ℕ) (len : ℤ) → All IsSized (hash_table_put c table key value len).1
  unfolding hash_table_put
  hash_table_put-IsSized key value (negsuc m) = h
  hash_table_put-IsSized key value (pos len) = elim (Bool-cases (len == 0 || not c.malloc_ok)) [
    | inl bad ↦ rw bad h
    | inr good ↦ rw good (elim (Option-cases (read_kv_item c.reading table (hash_gen key))) [
      | inl unread ↦ rw unread h
      | inr (row, found) ↦
          rw found (elim (Option-cases (put_row row key value (stored_length len))) [
            | inl full ↦ rw full h
            | inr (row', put) ↦
                let before = read_kv_item_found c.reading table (hash_gen key) row found in
                let whole = All-get_elem? IsSized table (hash_gen key) h before in
                let after = put_row-IsSized row key value (stored_length len) put whole in
                let w =
                  write_kv_item-IsSized c.writing c.torn table row' (hash_gen key) torn after h in
                rw put
                  (elim (Bool-cases (write_kv_item c.writing c.torn table row' (hash_gen key)).0) [
                    | inl done ↦ rw done w
                    | inr failed ↦ rw failed w
                  ])
          ])
    ])
  ]

  pub hash_table_rm-IsSized : (key : List ℕ) → All IsSized (hash_table_rm c table key).1
  unfolding hash_table_rm
  hash_table_rm-IsSized key = elim (Bool-cases c.malloc_ok) [
    | inr bad ↦ rw bad h
    | inl good ↦ rw good (elim (Option-cases (read_kv_item c.reading table (hash_gen key))) [
      | inl unread ↦ rw unread h
      | inr (row, found) ↦
          let before = read_kv_item_found c.reading table (hash_gen key) row found in
          let whole = All-get_elem? IsSized table (hash_gen key) h before in
          let after = rm_row-IsSized row key whole in
          let w =
            write_kv_item-IsSized c.writing c.torn table (rm_row row key) (hash_gen key) torn after
              h in
          rw found
            (elim (Bool-cases
              (write_kv_item c.writing c.torn table (rm_row row key) (hash_gen key)).0) [
                | inl done ↦ rw done w
                | inr failed ↦ rw failed w
              ])
    ])
  ]

pub put_back-IsWhole :
    (disk : Option Table) (table : Table) → All IsSized table → IsWhole (put_back disk table)
put_back-IsWhole none table h = tt
put_back-IsWhole (some old) table h = h
