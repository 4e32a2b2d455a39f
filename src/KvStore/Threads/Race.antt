-- ===== src/KvStore/Threads/Race.antt =====
-- The first calls of the store, when `file` is still NULL: nothing guards `if (!file)`.
use clink3_wiki.Prelude.{
  ℕ, ◌≡◌, refl, sym, ◌∙◌, ap₂, ap, List, [], ◌∷◌, true, some, get_elem?, set, set-set, ◌≢◌,
  get_elem?-set_self, get_elem?-bound,
}
use clink3_wiki.KvStore.Row.{Item}
use clink3_wiki.KvStore.File.{Table}
use clink3_wiki.KvStore.Threads.{
  Job, place, new_row, finished, begin_null, open_new, assign, check, pass, lock, load, write,
  unlock, System, pick, Reach, start, later, before_first, Effect, Atomic, none_yet, kept, written,
  torn,
}
use mathlib.Core.Option.{some-injective}
use native.Mathlib.Decide.{ℕ_discrete}

unchanged : {job : ℕ → Job} {disk0 disk : Table} → Atomic job disk0 [] disk → disk ≡ disk0
unchanged none_yet = refl

-- The table behind one successful call that writes
one_call :
    {job : ℕ → Job} {disk0 disk : Table} {e : Effect} (row' : List Item)
    → Atomic job disk0 (e ∷ []) disk
    → e.ok ≡ true
    → new_row (job e.call) e.seen ≡ some row'
    → disk ≡ set disk0 (place (job e.call)) row'
one_call row' (kept i a found same) ok changed = absurd cc
one_call {job} row' (written i a found new) ok changed =
    ap₂ (λ d r. set d (place (job i)) r) (unchanged a) (some-injective _ _ (sym new ∙ changed))
one_call row' (torn i left a found new) ok changed = absurd cc

last_seen :
    {job : ℕ → Job} {disk0 disk : Table} {e : Effect} {log : List Effect}
    → Atomic job disk0 (e ∷ log) disk
    → (before : Table) × Atomic job disk0 log before
      × (get_elem? before (place (job e.call)) ≡ some e.seen)
last_seen (kept {disk = disk} i a found same) = (disk, a, found)
last_seen (written {disk = disk} i a found new) = (disk, a, found)
last_seen (torn {disk = disk} i left a found new) = (disk, a, found)

abbrev effect : ℕ → List Item → Effect
effect i row = record { call = i; ok = true; seen = row }

overwritten :
    (job : ℕ → Job) (disk : Table) (row0 row1 : List Item)
    → place (job 0) ≡ place (job 1)
    → set (set disk (place (job 0)) row0) (place (job 1)) row1 ≡ set disk (place (job 1)) row1
overwritten job disk row0 row1 same_place =
    ap (λ i. set (set disk i row0) (place (job 1)) row1) same_place
    ∙ set-set disk (place (job 1)) row0 row1

not-Atomic :
    (job : ℕ → Job) (disk : Table) (row row0 : List Item) {after : Table}
    → place (job 0) ≡ place (job 1)
    → get_elem? disk (place (job 0)) ≡ some row
    → new_row (job 0) row ≡ some row0
    → row0 ≢ row
    → ¬ Atomic job disk (effect 1 row ∷ effect 0 row ∷ []) after
not-Atomic job disk row row0 same_place found changed0 new a =
    let (before, first, seen) = last_seen a in
    let stored : get_elem? before (place (job 0)) ≡ some row0 =
      rw (one_call row0 first refl changed0) (
        get_elem?-set_self disk (place (job 0)) row0
          (get_elem?-bound disk (place (job 0)) found)) in
    let reread : get_elem? before (place (job 0)) ≡ some row = rw same_place seen in
    new (some-injective _ _ (sym stored ∙ reread))

-- When `file` is still NULL, two calls that write to the same row can both return 0 and leave a
-- table in which the first never happened. Their log is not one of calls that happen one after the
-- other.
pub kv_threads-lost_update :
    (job : ℕ → Job) (disk : Table) (row row0 row1 : List Item)
    → place (job 0) ≡ place (job 1)
    → get_elem? disk (place (job 0)) ≡ some row
    → new_row (job 0) row ≡ some row0
    → new_row (job 1) row ≡ some row1
    → row0 ≢ row
    → (s : System) × Reach job (before_first disk) s
      × (s.phase 0 ≡ finished true)
      × (s.phase 1 ≡ finished true)
      × (s.mem.disk ≡ set disk (place (job 1)) row1)
      × ¬ Atomic job disk s.mem.log s.mem.disk
unfolding ℕ_discrete
kv_threads-lost_update job disk row row0 row1 same_place found changed0 changed1 new =
    let both_in : Reach job (before_first disk) _ =
      later (later start (pick 0 (begin_null refl))) (pick 1 (begin_null refl)) in
    let both_made = later (later both_in (pick 0 open_new)) (pick 1 open_new) in
    let first =
      later (later (later both_made (pick 0 assign)) (pick 0 (check refl))) (pick 0 (pass refl)) in
    let second =
      later (later (later first (pick 1 assign)) (pick 1 (check refl))) (pick 1 (pass refl)) in
    let locked = later (later second (pick 0 (lock refl))) (pick 1 (lock refl)) in
    let both_read =
      later (later locked (pick 0 (load found))) (pick 1 (load (rw (sym same_place) found))) in
    let both_wrote = later (later both_read (pick 0 (write changed0))) (pick 1 (write changed1)) in
    (
      _,
      later (later both_wrote (pick 0 unlock)) (pick 1 unlock),
      refl,
      refl,
      overwritten job disk row0 row1 same_place,
      not-Atomic job disk row row0 same_place found changed0 new,
    )
