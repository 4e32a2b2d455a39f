-- ===== src/KvStore/Tests.antt =====
-- A small table, and rows with one and two items.
use clink3_wiki.Prelude.{ℕ, ◌≡◌, refl, List, [], ◌∷◌, true, none, some, arith, take, min, replicate}
use clink3_wiki.Prelude.Int.{pos}
use clink3_wiki.KvStore.Row.{
  Item, zero_item, zero_row, hash_gen, hash_loop, put_row, get_row, rm_row, fill, strcmp_eq,
}
use clink3_wiki.KvStore.File.{
  FileCalls, Calls, Table, read_kv_item, write_kv_item, hash_table_put, hash_table_get,
}
use clink3_wiki.KvStore.Rows.{IsSized, IsPacked, put_row-get_row_other}
use clink3_wiki.KvStore.Handle.{Store, Env, opened, kv_open, kv_set_locked, kv_set, kv_get}
use clink3_wiki.KvStore.Contents.{Stores, created, put, lookup, answer, hash_table_get-lookup}
use clink3_wiki.KvStore.Served.{bound, WholeWrites, Served, untouched, served_set}
use clink3_wiki.KvStore.Mapping.{kv_get-lookup}
use clink3_wiki.KvStore.Session.{KvCall, set_call, get_call, del_call, kv_calls}
use clink3_wiki.KvStore.Idle.{IsWellFormed, kv_calls-IsWellFormed}
use clink3_wiki.KvStore.Removal.{rm_row_hides, LongPut, put_row-LongPut}
use clink3_wiki.KvStore.RoundTrip.{CanRead}

abbrev all_well : FileCalls
all_well = record { open_ok = true; fstat_ok = true; lseek_ok = true; transfer_ok = true }

abbrev calls : Calls
calls = record {
  malloc_ok = true;
  reading = all_well;
  writing = all_well;
  torn = [];
  create_ok = true;
  rows_ok = 400;
  fsync_ok = true;
}

calls-CanRead : CanRead calls
calls-CanRead = record { malloc = refl; opens = refl; fstat = refl; lseek = refl; transfer = refl }

abbrev key : List ℕ
key = 0x01 ∷ []

abbrev other_key : List ℕ
other_key = 0x02 ∷ []

abbrev bytes : List ℕ
bytes = 7 ∷ 8 ∷ 9 ∷ []

abbrev table : Table
table = replicate 3 zero_row

zero_row-IsSized : IsSized zero_row
zero_row-IsSized = (refl, (refl, tt))

zero_row-IsPacked : IsPacked zero_row
zero_row-IsPacked = (λ e. (refl, tt), (λ e. tt, tt))

abbrev stored_row : List Item
stored_row = fill zero_item key bytes 3 ∷ zero_item ∷ []

put_in_free_row : put_row zero_row key bytes 3 ≡ some stored_row
unfolding put_row
put_in_free_row = refl

put_in_table : (hash_table_put calls table key bytes (pos 3)).0 ≡ pos 0
unfolding hash_table_put read_kv_item write_kv_item put_row hash_gen hash_loop
put_in_table = refl

put_row-get_row_other_example : get_row stored_row other_key ≡ get_row zero_row other_key
put_row-get_row_other_example =
    put_row-get_row_other zero_row key bytes other_key 3 (omega arith) (omega arith) (λ e. cc e)
      zero_row-IsPacked put_in_free_row

abbrev first : Item
first = record { key = key; value = replicate 512 1; value_len = 5 }

abbrev second : Item
second = record { key = other_key; value = replicate 512 2; value_len = 6 }

rm_row_hides_example :
    (get_row (first ∷ second ∷ []) second.key ≡ some second)
    × (rm_row (first ∷ second ∷ []) first.key ≡ zero_item ∷ second ∷ [])
    × (get_row (rm_row (first ∷ second ∷ []) first.key) second.key ≡ none)
rm_row_hides_example = rm_row_hides first second (omega arith) (omega arith) (λ e. cc e)

put_row-LongPut_example :
    LongPut
      (replicate 128 0x61)
      bytes
      3
      (first ∷ zero_item ∷ [])
      (put_row (first ∷ zero_item ∷ []) (replicate 128 0x61) bytes 3)
put_row-LongPut_example =
    put_row-LongPut (first ∷ zero_item ∷ []) (replicate 128 0x61) bytes 3 (omega arith)
      (omega arith)

abbrev third : ℕ
third = 2

abbrev env : Env
env = record { handle_ok = true; calls = calls }

-- No handle yet, and a file that is there
abbrev at_start : Store
at_start = record { file = none; disk = some table }

at_start-IsWellFormed : IsWellFormed at_start
at_start-IsWellFormed = record {
  idle = tt;
  whole = (zero_row-IsSized, (zero_row-IsSized, (zero_row-IsSized, tt)));
}

set_done : (kv_set env at_start (some key) (some bytes) (pos 3)).0 ≡ pos 0
unfolding kv_set opened kv_open kv_set_locked hash_table_put read_kv_item write_kv_item put_row
    hash_gen hash_loop
set_done = refl

abbrev session : List KvCall
session =
    set_call env (some key) (some bytes) (pos 3)
    ∷ del_call env (some key)
    ∷ get_call env (some key) none (pos 0)
    ∷ []

kv_calls-IsWellFormed_example : IsWellFormed (kv_calls session at_start)
kv_calls-IsWellFormed_example =
    kv_calls-IsWellFormed session at_start (tt, (tt, (tt, tt))) at_start-IsWellFormed

one_put : (hash_table_put calls (replicate 384 zero_row) key bytes (pos 3)).0 ≡ pos 0
unfolding hash_table_put hash_gen hash_loop read_kv_item put_row write_kv_item
one_put = refl

abbrev stores_one :
    Stores
      (hash_table_put calls (replicate 384 zero_row) key bytes (pos 3)).1
      ((key, take (min 3 512) bytes) ∷ [])
stores_one = put calls key bytes 3 created (omega arith) (omega arith) one_put

hash_table_get-lookup_example :
    hash_table_get calls
      (hash_table_put calls (replicate 384 zero_row) key bytes (pos 3)).1
      key
      (0 ∷ 0 ∷ [])
      (pos 2)
    ≡ answer (0 ∷ 0 ∷ []) 2 (lookup ((key, take (min 3 512) bytes) ∷ []) key)
hash_table_get-lookup_example =
    hash_table_get-lookup stores_one calls key (0 ∷ 0 ∷ []) 2 calls-CanRead (omega arith)

-- It is the start of the bytes.
answer_of_one :
    answer (0 ∷ 0 ∷ []) 2 (lookup ((key, take (min 3 512) bytes) ∷ []) key)
    ≡ record { result = pos 0; value = 7 ∷ 8 ∷ []; len = pos 2 }
unfolding answer lookup strcmp_eq
answer_of_one = refl

abbrev unused_store : Store
unused_store = record { file = none; disk = none }

env-WholeWrites : WholeWrites env
env-WholeWrites = record { creates = omega arith; writes = refl }

abbrev served_one : Served (kv_set env unused_store (some key) (some bytes) (pos 3)).1 (
    bound
      (kv_set env unused_store (some key) (some bytes) (pos 3)).0
      key
      (take (min 3 512) bytes)
      [])
served_one = served_set env key bytes 3 untouched env-WholeWrites (omega arith) (omega arith)

kv_get-lookup_example :
    (kv_get env
      (kv_set env unused_store (some key) (some bytes) (pos 3)).1
      (some key)
      (some (0 ∷ 0 ∷ []))
      (pos 2)).0
    ≡ answer (0 ∷ 0 ∷ []) 2 (
        lookup
          (bound
            (kv_set env unused_store (some key) (some bytes) (pos 3)).0
            key
            (take (min 3 512) bytes)
            [])
          key)
kv_get-lookup_example =
    kv_get-lookup served_one env key (0 ∷ 0 ∷ []) 2 refl env-WholeWrites calls-CanRead (omega arith)
