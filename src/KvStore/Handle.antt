-- ===== src/KvStore/Handle.antt =====
-- `kv_open`, `__kv_get`, `__kv_set`, `__kv_del`, `kv_get`, `kv_set`, `kv_del`, `HAL_Kv_Get` and
-- `HAL_Kv_Set` of Vendors/ubuntu/wrapper.c: the static handle, its lock and the file.
use clink3_wiki.Prelude.{ℕ, List, [], Bool, true, false, Option, none, some, if◌then◌else◌}
use clink3_wiki.Prelude.Int.{ℤ, minus_one, not_positive}
use clink3_wiki.KvStore.File.{
  Table, Calls, Found, not_found, create_hash_file, hash_table_put, hash_table_get, hash_table_rm,
}

-- `kv_file_t`, whose name is always KV_FILE_NAME
pub record KvFile : Type 0 where
  pub locked : Bool

-- The static `file`, NULL at first, and the file on disk, `none` while it does not exist
pub record Store : Type 0 where
  pub file : Option KvFile
  pub disk : Option Table

-- Whether the `malloc` of the handle succeeds, and the calls of the operation itself
pub record Env : Type 0 where
  pub handle_ok : Bool
  pub calls : Calls

abbrev pub lock : KvFile → KvFile
lock f = record f { locked = true }

abbrev pub unlock : KvFile → KvFile
unlock f = record f { locked = false }

-- The handle, or `none` for NULL, and the file on disk. The lock is taken for the creation.
unfoldable pub kv_open : Env → Option Table → Option KvFile × Option Table
kv_open env disk =
    let fresh : KvFile = lock (record { locked = false }) in
    if env.handle_ok
    then elim disk [
      | some table ↦ (some (unlock fresh), some table)
      | none ↦
          let (disk', done) = create_hash_file env.calls in
          if done then (some (unlock fresh), disk') else (none, disk')
    ]
    else (none, disk)

-- `if (!file) { file = kv_open(KV_FILE_NAME); ... }`
unfoldable pub opened : Env → Store → Store
opened env s = elim s.file [
  | some f ↦ s
  | none ↦ let (file, disk) = kv_open env s.disk in record { file = file; disk = disk }
]

-- The file that `open` finds without O_CREAT; a missing one makes every read fail.
abbrev pub rows_of : Option Table → Table
rows_of none = []
rows_of (some table) = table

-- A file that does not exist stays so.
abbrev pub put_back : Option Table → Table → Option Table
put_back none table = none
put_back (some old) table = some table

-- `__kv_set`: the checks, the lock, the operation and the unlock. NULL is `none`.
unfoldable pub kv_set_locked :
    Calls → KvFile → Option Table → Option (List ℕ) → Option (List ℕ) → ℤ → ℤ × Store
kv_set_locked c f disk none value len = (minus_one, record { file = some f; disk = disk })
kv_set_locked c f disk (some key) none len = (minus_one, record { file = some f; disk = disk })
kv_set_locked c f disk (some key) (some value) len =
    if not_positive len
    then (minus_one, record { file = some f; disk = disk })
    else (let held = lock f in
        let (ret, table) = hash_table_put c (rows_of disk) key value len in
        (ret, record { file = some (unlock held); disk = put_back disk table }))

-- The caller's buffer; there is none behind NULL.
abbrev pub buffer : Option (List ℕ) → List ℕ
buffer none = []
buffer (some bytes) = bytes

-- `__kv_get`. NULL for `value_len` is not modelled: the callers pass an address.
unfoldable pub kv_get_locked :
    Calls → KvFile → Option Table → Option (List ℕ) → Option (List ℕ) → ℤ → Found × Store
kv_get_locked c f disk none value len =
    (not_found (buffer value) len, record { file = some f; disk = disk })
kv_get_locked c f disk (some key) none len =
    (not_found [] len, record { file = some f; disk = disk })
kv_get_locked c f disk (some key) (some value) len =
    if not_positive len
    then (not_found value len, record { file = some f; disk = disk })
    else (let held = lock f in
        let found = hash_table_get c (rows_of disk) key value len in
        (found, record { file = some (unlock held); disk = disk }))

-- `__kv_del`
unfoldable pub kv_del_locked : Calls → KvFile → Option Table → Option (List ℕ) → ℤ × Store
kv_del_locked c f disk none = (minus_one, record { file = some f; disk = disk })
kv_del_locked c f disk (some key) =
    let held = lock f in
    let (ret, table) = hash_table_rm c (rows_of disk) key in
    (ret, record { file = some (unlock held); disk = put_back disk table })

-- `kv_set` and `HAL_Kv_Set`, which ignores `sync`
unfoldable pub kv_set : Env → Store → Option (List ℕ) → Option (List ℕ) → ℤ → ℤ × Store
kv_set env s key value len =
    let s' = opened env s in
    elim s'.file [
      | none ↦ (minus_one, s')
      | some f ↦ kv_set_locked env.calls f s'.disk key value len
    ]

-- `kv_get` and `HAL_Kv_Get`
unfoldable pub kv_get : Env → Store → Option (List ℕ) → Option (List ℕ) → ℤ → Found × Store
kv_get env s key value len =
    let s' = opened env s in
    elim s'.file [
      | none ↦ (not_found (buffer value) len, s')
      | some f ↦ kv_get_locked env.calls f s'.disk key value len
    ]

-- `kv_del`
unfoldable pub kv_del : Env → Store → Option (List ℕ) → ℤ × Store
kv_del env s key =
    let s' = opened env s in
    elim s'.file [ none ↦ (minus_one, s') | some f ↦ kv_del_locked env.calls f s'.disk key ]
