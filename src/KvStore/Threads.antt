-- ===== src/KvStore/Threads.antt =====
-- Threads in `kv_get`, `kv_set` and `kv_del` of Vendors/ubuntu/wrapper.c at the same time: the static
-- `file`, the mutex of each handle, and the row file that they share. The file exists, and each
-- thread makes one call, with parameters that pass the checks.
pub mod Settled
pub mod Moves
pub mod Serial
pub mod Progress
pub mod Race
pub mod Solo
mod Tests
use clink3_wiki.Prelude.{
  ℕ, ◌+◌, ◌≡◌, List, [], ◌∷◌, Bool, true, false, Option, none, some, get_elem?, set,
}
use clink3_wiki.KvStore.Row.{Item, hash_gen, stored_length, put_row, get_row, rm_row}
use clink3_wiki.KvStore.File.{Table}
use mathlib.Core.Logic.{ite}
use native.Mathlib.Decide.{ℕ_discrete}

-- One entry of a family changed: of the phases by thread, of the locks by handle
abbrev pub at_index {ℓ} : {A : Type ℓ} → (ℕ → A) → ℕ → A → ℕ → A
at_index f i a j = ite (ℕ_discrete i j) a (f j)

-- `kv_get` and `kv_set` with the caller's buffer and its length, `kv_del`
pub data Job : Type 0 where
  get_job : (key value : List ℕ) (len : ℕ) → Job
  put_job : (key value : List ℕ) (len : ℕ) → Job
  rm_job : (key : List ℕ) → Job

-- The row of the key
unfoldable pub place : Job → ℕ
place (get_job key value len) = hash_gen key
place (put_job key value len) = hash_gen key
place (rm_job key) = hash_gen key

-- The row that is written back, or `none` for no write
unfoldable pub new_row : Job → List Item → Option (List Item)
new_row (get_job key value len) row = none
new_row (put_job key value len) row = put_row row key value (stored_length len)
new_row (rm_job key) row = some (rm_row row key)

-- Whether a call that writes nothing returns 0: a get that finds the key, and no full row
unfoldable pub unwritten_ok : Job → List Item → Bool
unwritten_ok (get_job key value len) row = elim (get_row row key) [ none ↦ false | some p ↦ true ]
unwritten_ok (put_job key value len) row = false
unwritten_ok (rm_job key) row = false

-- Where a thread stands, with its local variables. A handle is the number of its `malloc`.
pub data Phase : Type 0 where
  idle : Phase
  opening : Phase  -- in `kv_open`, behind `if (!file)`
  assigning : (result : Option ℕ) → Phase  -- before `file = ...`
  opened : Phase  -- before the second `if (!file)`
  passing : Phase  -- before the argument `file` is read
  calling : (h : ℕ) → Phase  -- before `pthread_mutex_lock`
  holding : (h : ℕ) → Phase  -- behind it
  loaded : (h : ℕ) (row : List Item) → Phase  -- behind `read_kv_item`
  leaving : (h : ℕ) (ok : Bool) → Phase  -- before `pthread_mutex_unlock`
  finished : (ok : Bool) → Phase  -- returned, with 0 or not

-- A call that read its row: which one, whether it returns 0, and what it saw
pub record Effect : Type 0 where
  pub call : ℕ
  pub ok : Bool
  pub seen : List Item

-- `lock h` is the thread that holds the mutex of the handle `h`. `log` has the calls that read their
-- row, the last one first, in the order in which they did so for good.
pub record Shared : Type 0 where
  pub file : Option ℕ
  pub next : ℕ
  pub lock : ℕ → Option ℕ
  pub disk : Table
  pub log : List Effect

-- One step of the thread `i`. System calls succeed or fail as they like; an incomplete `write`
-- leaves any row behind.
pub data Move (job : ℕ → Job) (i : ℕ) (m : Shared) : Phase → Shared → Phase → Type 0 where
  begin_null : m.file ≡ none → Move job i m idle m opening
  begin : {h : ℕ} → m.file ≡ some h → Move job i m idle m passing
  open_new : Move job i m opening (record m { next = m.next + 1 }) (assigning (some m.next))
  open_fails : Move job i m opening m (assigning none)
  assign : {r : Option ℕ} → Move job i m (assigning r) (record m { file = r }) opened
  check : {h : ℕ} → m.file ≡ some h → Move job i m opened m passing
  check_null : m.file ≡ none → Move job i m opened m (finished false)
  pass : {h : ℕ} → m.file ≡ some h → Move job i m passing m (calling h)
  pass_null : m.file ≡ none → Move job i m passing m (finished false)
  lock :
      {h : ℕ}
      → m.lock h ≡ none
      → Move job i m (calling h) (record m { lock = at_index m.lock h (some i) }) (holding h)
  give_up : {h : ℕ} → Move job i m (holding h) m (leaving h false)
  load :
      {h : ℕ} {row : List Item}
      → get_elem? m.disk (place (job i)) ≡ some row
      → Move job i m (holding h) m (loaded h row)
  keep :
      {h : ℕ} {row : List Item}
      → new_row (job i) row ≡ none
      → Move job i m
          (loaded h row)
          (record m {
            log = record { call = i; ok = unwritten_ok (job i) row; seen = row } ∷ m.log;
          })
          (leaving h (unwritten_ok (job i) row))
  write_fails :
      {h : ℕ} {row row' : List Item}
      → new_row (job i) row ≡ some row'
      → Move job i m (loaded h row) m (leaving h false)
  write :
      {h : ℕ} {row row' : List Item}
      → new_row (job i) row ≡ some row'
      → Move job i m
          (loaded h row)
          (record m {
            disk = set m.disk (place (job i)) row';
            log = record { call = i; ok = true; seen = row } ∷ m.log;
          })
          (leaving h true)
  tear :
      {h : ℕ} {row row' : List Item} (torn : List Item)
      → new_row (job i) row ≡ some row'
      → Move job i m
          (loaded h row)
          (record m {
            disk = set m.disk (place (job i)) torn;
            log = record { call = i; ok = false; seen = row } ∷ m.log;
          })
          (leaving h false)
  unlock :
      {h : ℕ} {ok : Bool}
      → Move job i m (leaving h ok) (record m { lock = at_index m.lock h none }) (finished ok)

pub record System : Type 0 where
  pub mem : Shared
  pub phase : ℕ → Phase

pub data Step (job : ℕ → Job) (s : System) : System → Type 0 where
  pick :
      (i : ℕ) {m : Shared} {p : Phase}
      → Move job i s.mem (s.phase i) m p
      → Step job s (record { mem = m; phase = at_index s.phase i p })

pub data Reach (job : ℕ → Job) (s0 : System) : System → Type 0 where
  start : Reach job s0 s0
  later : {s t : System} → Reach job s0 s → Step job s t → Reach job s0 t

-- The file at first, no handle made, nobody in a call
abbrev pub before_first : Table → System
before_first disk = record {
  mem = record { file = none; next = 0; lock = λ _. none; disk = disk; log = [] };
  phase = λ _. idle;
}

-- The same behind a first call: `file` is the handle 0.
abbrev pub behind_first : Table → System
behind_first disk = record {
  mem = record { file = some 0; next = 1; lock = λ _. none; disk = disk; log = [] };
  phase = λ _. idle;
}

-- The store that the threads should look like: each call reads the table and changes it in one
-- transition. A torn write is a call that fails and leaves any row.
pub data Atomic (job : ℕ → Job) (disk0 : Table) : List Effect → Table → Type 0 where
  none_yet : Atomic job disk0 [] disk0
  kept :
      {log : List Effect} {disk : Table} {row : List Item} (i : ℕ)
      → Atomic job disk0 log disk
      → get_elem? disk (place (job i)) ≡ some row
      → new_row (job i) row ≡ none
      → Atomic job disk0 (record { call = i; ok = unwritten_ok (job i) row; seen = row } ∷ log) disk
  written :
      {log : List Effect} {disk : Table} {row row' : List Item} (i : ℕ)
      → Atomic job disk0 log disk
      → get_elem? disk (place (job i)) ≡ some row
      → new_row (job i) row ≡ some row'
      → Atomic job disk0
          (record { call = i; ok = true; seen = row } ∷ log)
          (set disk (place (job i)) row')
  torn :
      {log : List Effect} {disk : Table} {row row' : List Item} (i : ℕ) (left : List Item)
      → Atomic job disk0 log disk
      → get_elem? disk (place (job i)) ≡ some row
      → new_row (job i) row ≡ some row'
      → Atomic job disk0
          (record { call = i; ok = false; seen = row } ∷ log)
          (set disk (place (job i)) left)
