-- ===== src/KvStore/SetGet.antt =====
-- What `HAL_Kv_Set` stored, `HAL_Kv_Get` returns, through the handle and the file.
use clink3_wiki.Prelude.{
  ℕ, ◌≤◌, ◌<◌, ◌≡◌, inl, inr, refl, ap, sym, ◌∙◌, List, [], false, Option, none, some, All,
  Bool-cases, Option-cases, length, take, min, le→ltb,
}
use clink3_wiki.Prelude.Int.{ℤ, pos, not_positive}
use clink3_wiki.KvStore.File.{Table, Calls, Found, hash_table_put}
use clink3_wiki.KvStore.Rows.{IsSized}
use clink3_wiki.KvStore.Files.{hash_table_put_done}
use clink3_wiki.KvStore.RoundTrip.{CanRead, copied, hash_table_put-hash_table_get}
use clink3_wiki.KvStore.Handle.{
  KvFile, Store, Env, opened, rows_of, put_back, kv_set_locked, kv_get_locked, kv_set, kv_get,
}
use clink3_wiki.KvStore.Idle.{IsWellFormed, opened-IsWellFormed}
use clink3_wiki.KvStore.Whole.{IsWhole}

module _ (env : Env) (key value buf : List ℕ) (len size : ℕ) (hk : length key ≤ 127)
    (hv : len ≤ length value) (big : 0 < size) (ok : CanRead env.calls) where
  -- The bytes that a get returns
  abbrev wanted : Found
  wanted = copied buf (take (min (min len 512) size) value) (min (min len 512) size)

  get_wanted :
      (c : Calls) (f : KvFile) (table : Table)
      → All IsSized table
      → (hash_table_put c table key value (pos len)).0 ≡ pos 0
      → (kv_get env
          (record { file = some f; disk = some (hash_table_put c table key value (pos len)).1 })
          (some key)
          (some buf)
          (pos size)).0
        ≡ wanted
  unfolding kv_get opened kv_get_locked
  get_wanted c f table whole e =
      rw (le→ltb size 1 big) (
        hash_table_put-hash_table_get c env.calls table key value buf len size whole hk hv big ok e)

  set_locked_wanted :
      (c : Calls) (f : KvFile) (disk : Option Table)
      → IsWhole disk
      → (kv_set_locked c f disk (some key) (some value) (pos len)).0 ≡ pos 0
      → (kv_get env
          (kv_set_locked c f disk (some key) (some value) (pos len)).1
          (some key)
          (some buf)
          (pos size)).0
        ≡ wanted
  unfolding kv_set_locked
  set_locked_wanted c f disk whole e = elim (Bool-cases (not_positive (pos len))) [
    | inl bad ↦ cc (rw bad at e)
    | inr good ↦ rw good (with_disk disk whole (rw good at e))
  ]
    where
      with_disk :
          (d : Option Table)
          → IsWhole d
          → (hash_table_put c (rows_of d) key value (pos len)).0 ≡ pos 0
          → (kv_get env
              (record {
                file = some (record { locked = false });
                disk = put_back d (hash_table_put c (rows_of d) key value (pos len)).1;
              })
              (some key)
              (some buf)
              (pos size)).0
            ≡ wanted
      with_disk none w r =
          let (row, row', positive, before, put, written) =
            hash_table_put_done c [] key value len r in
          absurd (cc before)
      with_disk (some table) w r = get_wanted c (record { locked = false }) table w r

-- The store behind a set that returned 0
set_acts :
    (env : Env) (s : Store) (key value : Option (List ℕ)) (len : ℤ)
    → (kv_set env s key value len).0 ≡ pos 0
    → (f : KvFile) × (kv_set env s key value len
        ≡ kv_set_locked env.calls f (opened env s).disk key value len)
unfolding kv_set
set_acts env s key value len e = elim (Option-cases (opened env s).file) [
  | inl absent ↦ cc (rw (kv_set, absent) at e)
  | inr (f, present) ↦ (f, rw (kv_set, present) refl)
]

-- After `HAL_Kv_Set` returned 0, on a store that may have had no handle and no file, `HAL_Kv_Get` of the same
-- key returns 0 and the stored bytes, cut to 512 and to the size of the caller's buffer, and their number,
-- when the calls of the get succeed. The key has at most 127 characters, `value` has the bytes that are
-- set, and the store is well-formed.
pub kv_set-kv_get :
    (env env' : Env) (s : Store) (key value buf : List ℕ) (len size : ℕ)
    → IsWellFormed s
    → length key ≤ 127
    → len ≤ length value
    → 0 < size
    → CanRead env'.calls
    → (kv_set env s (some key) (some value) (pos len)).0 ≡ pos 0
    → (kv_get env'
        (kv_set env s (some key) (some value) (pos len)).1
        (some key)
        (some buf)
        (pos size)).0
      ≡ copied buf (take (min (min len 512) size) value) (min (min len 512) size)
kv_set-kv_get env env' s key value buf len size wf hk hv big ok e =
    let (f, acts) = set_acts env s (some key) (some value) (pos len) e in
    ap (λ r. (kv_get env' r.1 (some key) (some buf) (pos size)).0) acts
    ∙ set_locked_wanted env' key value buf len size hk hv big ok env.calls f (opened env s).disk
        (opened-IsWellFormed env s wf).whole (ap (λ r. r.0) (sym acts) ∙ e)
