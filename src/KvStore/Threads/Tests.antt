-- ===== src/KvStore/Threads/Tests.antt =====
-- Two puts into the same row: interleaved behind a first call, as first calls, and one alone.
use clink3_wiki.Prelude.{
  ◌+◌, ◌≤◌, ℕ, zero, suc, ◌≡◌, refl, ap, arith, List, [], ◌∷◌, true, some, get_elem?, set, ◌≢◌, ◌⊎◌,
}
use clink3_wiki.Prelude.Int.{is_zero, pos}
use clink3_wiki.KvStore.Row.{Item, zero_row, zero_item, hash_gen, hash_loop, put_row, fill}
use clink3_wiki.KvStore.File.{Table, Calls, FileCalls, hash_table_put, read_kv_item, write_kv_item}
use clink3_wiki.KvStore.Threads.{
  Shared, Phase, Move, Job, put_job, place, new_row, calling, finished, begin, pass, lock, load,
  write, unlock, System, pick, Reach, start, later, before_first, behind_first, Atomic,
}
use clink3_wiki.KvStore.Threads.Settled.{Logged}
use clink3_wiki.KvStore.Threads.Moves.{inside}
use clink3_wiki.KvStore.Threads.Serial.{kv_threads-serial}
use clink3_wiki.KvStore.Threads.Progress.{CanMove, rank, kv_threads-CanMove}
use clink3_wiki.KvStore.Threads.Race.{kv_threads-lost_update}
use clink3_wiki.KvStore.Threads.Solo.{IsAtomic, solo, solo-IsAtomic}
use native.Mathlib.Decide.{ℕ_discrete}

-- Both keys have the hash 1: 33 * 11 + 22 is 385.
abbrev key_a : List ℕ
key_a = 1 ∷ []

abbrev key_b : List ℕ
key_b = 11 ∷ 22 ∷ []

abbrev jobs : ℕ → Job
jobs zero = put_job key_a (7 ∷ []) 1
jobs (suc i) = put_job key_b (8 ∷ []) 1

abbrev table : Table
table = zero_row ∷ zero_row ∷ []

abbrev row_a : List Item
row_a = fill zero_item key_a (7 ∷ []) 1 ∷ zero_item ∷ []

abbrev row_b : List Item
row_b = fill zero_item key_b (8 ∷ []) 1 ∷ zero_item ∷ []

changed_a : new_row (jobs 0) zero_row ≡ some row_a
unfolding new_row put_row
changed_a = refl

changed_b : new_row (jobs 1) zero_row ≡ some row_b
unfolding new_row put_row
changed_b = refl

place_a : place (jobs 0) ≡ 1
unfolding place hash_gen hash_loop
place_a = refl

place_b : place (jobs 1) ≡ 1
unfolding place hash_gen hash_loop
place_b = refl

found : get_elem? table (place (jobs 0)) ≡ some zero_row
found = rw place_a refl

first_length : List Item → ℕ
first_length [] = 0
first_length (p ∷ row) = p.value_len

row_a_new : row_a ≢ zero_row
unfolding fill first_length
row_a_new e = let lengths : ◌≡◌ {A = ℕ} 1 0 = ap first_length e in absurd (omega arith)

-- The first thread is through; the second waits at the mutex in between.
a_put : (s : System) × Reach jobs (behind_first table) s × (s.phase 0 ≡ finished true)
unfolding ℕ_discrete
a_put =
    let both_pass : Reach jobs (behind_first table) _ =
      later (later start (pick 0 (begin refl))) (pick 1 (begin refl)) in
    let both_call = later (later both_pass (pick 0 (pass refl))) (pick 1 (pass refl)) in
    let locked = later (later both_call (pick 0 (lock refl))) (pick 0 (load found)) in
    let stored = later (later locked (pick 0 (write changed_a))) (pick 0 unlock) in
    (_, stored, refl)

kv_threads-serial_example :
    Atomic jobs table a_put.0.mem.log a_put.0.mem.disk
    × ((i : ℕ) → a_put.0.phase i ≡ finished true → Logged i true a_put.0.mem.log)
    × ((i j : ℕ) → inside (a_put.0.phase i) ≡ true → inside (a_put.0.phase j) ≡ true → i ≡ j)
kv_threads-serial_example = kv_threads-serial jobs table a_put.0 a_put.1

kv_threads-CanMove_example :
    (CanMove jobs a_put.0.mem 1 (a_put.0.phase 1)
      ⊎ ((j : ℕ) × (a_put.0.mem.lock 0 ≡ some j) × CanMove jobs a_put.0.mem j (a_put.0.phase j)))
    × ((j : ℕ) (m' : Shared) (p' : Phase)
        → Move jobs j a_put.0.mem (a_put.0.phase j) m' p'
        → (rank p' + 1 ≤ rank (a_put.0.phase j)) × (rank (a_put.0.phase j) ≤ 9))
unfolding ℕ_discrete a_put
kv_threads-CanMove_example =
    kv_threads-CanMove jobs table a_put.0 a_put.1 1
      (λ ok e. let t : calling 0 ≡ finished ok = e in cc)

kv_threads-lost_update_example :
    (s : System) × Reach jobs (before_first table) s
    × (s.phase 0 ≡ finished true)
    × (s.phase 1 ≡ finished true)
    × (s.mem.disk ≡ set table (place (jobs 1)) row_b)
    × ¬ Atomic jobs table s.mem.log s.mem.disk
kv_threads-lost_update_example =
    kv_threads-lost_update jobs table zero_row row_a row_b (rw (place_a, place_b) refl) found
      changed_a changed_b row_a_new

abbrev file_calls : FileCalls
file_calls = record { open_ok = true; fstat_ok = true; lseek_ok = true; transfer_ok = true }

abbrev calls : Calls
calls = record {
  malloc_ok = true;
  reading = file_calls;
  writing = file_calls;
  torn = [];
  create_ok = true;
  rows_ok = 384;
  fsync_ok = true;
}

solo-IsAtomic_example :
    IsAtomic jobs 0 calls table
      (is_zero (solo (jobs 0) calls table).0)
      (solo (jobs 0) calls table).1
solo-IsAtomic_example = solo-IsAtomic jobs 0 calls table

-- It returns 0.
put_result : (solo (jobs 0) calls table).0 ≡ pos 0
unfolding solo hash_table_put hash_gen hash_loop read_kv_item put_row write_kv_item
put_result = refl
