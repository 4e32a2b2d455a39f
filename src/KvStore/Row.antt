-- ===== src/KvStore/Row.antt =====
-- The items of Vendors/ubuntu/wrapper.c, the hash of a key, and the loops over the row of a key in
-- `hash_table_put`, `hash_table_get` and `hash_table_rm`.
use clink3_wiki.Prelude.{
  ℕ, ◌+◌, ◌-◌, ◌*◌, ◌%◌, ◌^◌, List, [], ◌∷◌, Bool, true, false, ◌&&◌, Option, none, some, ltb, ◌==◌,
  if◌then◌else◌, take, replicate,
}
use clink3_wiki.Prelude.Words.{u32}
use clink3_wiki.Prelude.Buffer.{memcpy}

abbrev pub item_max_key_len : ℕ
item_max_key_len = 128

abbrev pub item_max_val_len : ℕ
item_max_val_len = 512

abbrev pub table_col_size : ℕ
table_col_size = 384

-- `kv_item_t`: the C string in `key`, the 512 bytes of `value`, and `value_len`, which the code
-- never makes negative.
pub record Item : Type 0 where
  pub key : List ℕ
  pub value : List ℕ
  pub value_len : ℕ

-- An item after `memset` to 0
abbrev pub zero_item : Item
zero_item = record { key = []; value = replicate 512 0; value_len = 0 }

-- TABLE_ROW_SIZE items
abbrev pub zero_row : List Item
zero_row = zero_item ∷ zero_item ∷ []

-- `strcmp(s, t) == 0`
unfoldable pub strcmp_eq : List ℕ → List ℕ → Bool
strcmp_eq [] [] = true
strcmp_eq [] (d ∷ t) = false
strcmp_eq (c ∷ s) [] = false
strcmp_eq (c ∷ s) (d ∷ t) = c == d && strcmp_eq s t

-- `char` is signed: a byte from 128 on adds a negative number.
abbrev pub char_value : ℕ → ℕ
char_value c = if ltb c 128 then c else c + 2 ^ 32 - 256

unfoldable pub hash_loop : ℕ → List ℕ → ℕ
hash_loop hash [] = hash
hash_loop hash (c ∷ key) = hash_loop (u32 (u32 (u32 (hash * 2 ^ 5) + hash) + char_value c)) key

unfoldable pub hash_gen : List ℕ → ℕ
unfolding hash_loop
hash_gen key = hash_loop 0 key % table_col_size

-- `value_len > ITEM_MAX_VAL_LEN ? ITEM_MAX_VAL_LEN : value_len`
abbrev pub stored_length : ℕ → ℕ
stored_length n = if ltb item_max_val_len n then item_max_val_len else n

-- The update of a stored key: `memset`, `memcpy` and the length
unfoldable pub overwrite : Item → List ℕ → ℕ → Item
overwrite p value n = record p {
  value = memcpy (replicate item_max_val_len 0) 0 (take n value);
  value_len = n;
}

-- A new key: `strncpy` of 127 characters, `memcpy` and the length
unfoldable pub fill : Item → List ℕ → List ℕ → ℕ → Item
fill p key value n = record {
  key = take (item_max_key_len - 1) key;
  value = memcpy p.value 0 (take n value);
  value_len = n;
}

-- The loop of `hash_table_put` over the row and what follows it; `none` is "hash row full". The end
-- of the list is `++j == TABLE_ROW_SIZE`.
unfoldable pub put_row : List Item → List ℕ → List ℕ → ℕ → Option (List Item)
put_row [] key value n = none
put_row (p ∷ row) key value n =
    let rest = put_row row key value n in
    if p.value_len == 0
    then some (fill p key value n ∷ row)
    else (if strcmp_eq p.key key
        then some (overwrite p value n ∷ row)
        else elim rest [ none ↦ none | some row' ↦ some (p ∷ row') ])

-- The loop of `hash_table_get`
unfoldable pub get_row : List Item → List ℕ → Option Item
get_row [] key = none
get_row (p ∷ row) key =
    let rest = get_row row key in
    if p.value_len == 0 then none else (if strcmp_eq key p.key then some p else rest)

-- The loop of `hash_table_rm`, which goes on behind an item that it cleared
unfoldable pub rm_row : List Item → List ℕ → List Item
rm_row [] key = []
rm_row (p ∷ row) key =
    let rest = rm_row row key in
    if p.value_len == 0 then p ∷ row else (if strcmp_eq key p.key then zero_item else p) ∷ rest
