-- ===== src/KvStore/Threads/Solo.antt =====
-- `hash_table_put`, `hash_table_get` and `hash_table_rm`, run alone, are calls of the store in which
-- each one happens at once.
use clink3_wiki.Prelude.{
  ℕ, ◌≡◌, refl, subst, arith, none, List, [], ◌∷◌, Bool, true, false, some, get_elem?, set, inl,
  inr, Bool-cases, Option-cases, ◌||◌, not, ◌==◌, if◌then◌else◌,
}
use clink3_wiki.Prelude.Int.{is_zero, ℤ, pos, minus_one}
use clink3_wiki.KvStore.Row.{Item, hash_gen, put_row, get_row, rm_row, stored_length}
use clink3_wiki.KvStore.File.{
  Table, Calls, reaches, read_kv_item, write_kv_item, hash_table_put, hash_table_get, hash_table_rm,
}
use clink3_wiki.KvStore.Files.{read_kv_item_found}
use clink3_wiki.KvStore.Threads.{
  Job, get_job, put_job, rm_job, place, new_row, unwritten_ok, Effect, Atomic, none_yet, kept,
  written, torn,
}

-- A get or a put of no bytes
abbrev pub IsEmpty : Job → Type 0
IsEmpty (get_job key value len) = len ≡ 0
IsEmpty (put_job key value len) = len ≡ 0
IsEmpty (rm_job key) = ⊥

-- The one transition of a call: what it says of itself in the log, whether it returns 0, and the table
-- behind it. Nothing happens before the call has its row, or when the write does not begin. A row that
-- is not changed, or is changed as the job says; a write that fails on the way leaves what the file holds.
pub data Transition (job : Job) (i : ℕ) (c : Calls) (disk : Table)
    : List Effect → Bool → Table → Type 0 where
  no_bytes : IsEmpty job → Transition job i c disk [] false disk
  no_memory : c.malloc_ok ≡ false → Transition job i c disk [] false disk
  unread : read_kv_item c.reading disk (place job) ≡ none → Transition job i c disk [] false disk
  unwritten :
      {row row' : List Item}
      → reaches c.writing disk (place job) ≡ false
      → get_elem? disk (place job) ≡ some row
      → new_row job row ≡ some row'
      → Transition job i c disk [] false disk
  looked :
      {row : List Item}
      → get_elem? disk (place job) ≡ some row
      → new_row job row ≡ none
      → Transition job i c disk
          (record { call = i; ok = unwritten_ok job row; seen = row } ∷ [])
          (unwritten_ok job row)
          disk
  changed :
      {row row' : List Item}
      → get_elem? disk (place job) ≡ some row
      → new_row job row ≡ some row'
      → Transition job i c disk
          (record { call = i; ok = true; seen = row } ∷ [])
          true
          (set disk (place job) row')
  broken :
      {row row' : List Item}
      → c.writing.transfer_ok ≡ false
      → get_elem? disk (place job) ≡ some row
      → new_row job row ≡ some row'
      → Transition job i c disk
          (record { call = i; ok = false; seen = row } ∷ [])
          false
          (set disk (place job) c.torn)

-- It is a course of the store in which each call happens at once.
Transition-Atomic :
    (job : ℕ → Job) (i : ℕ) (c : Calls) (disk disk' : Table) (log : List Effect) (ok : Bool)
    → Transition (job i) i c disk log ok disk'
    → Atomic job disk log disk'
Transition-Atomic job i c disk _ _ _ (no_bytes e) = none_yet
Transition-Atomic job i c disk _ _ _ (no_memory e) = none_yet
Transition-Atomic job i c disk _ _ _ (unread e) = none_yet
Transition-Atomic job i c disk _ _ _ (unwritten e found new) = none_yet
Transition-Atomic job i c disk _ _ _ (looked found same) = kept i none_yet found same
Transition-Atomic job i c disk _ _ _ (changed found new) = written i none_yet found new
Transition-Atomic job i c disk _ _ _ (broken fails found new) = torn i c.torn none_yet found new

-- A result and a table that one transition gives
pub record IsOne (job : Job) (i : ℕ) (c : Calls) (disk : Table) (ok : Bool) (disk' : Table)
    : Type 0 where
  pub log : List Effect
  pub transition : Transition job i c disk log ok disk'

-- `write_kv_item` behind the row that was read
write_kv_item-IsOne :
    (job : Job) (i : ℕ) (c : Calls) (disk : Table) (row row' : List Item)
    → get_elem? disk (place job) ≡ some row
    → new_row job row ≡ some row'
    → IsOne job i c disk
        (write_kv_item c.writing c.torn disk row' (place job)).0
        (write_kv_item c.writing c.torn disk row' (place job)).1
unfolding write_kv_item
write_kv_item-IsOne job i c disk row row' found new =
    elim (Bool-cases (reaches c.writing disk (place job))) [
      | inr unreached ↦
          simp unreached (record { log = _; transition = unwritten unreached found new })
      | inl reached ↦ elim (Bool-cases c.writing.transfer_ok) [
        | inl all ↦ simp (reached, all) (record { log = _; transition = changed found new })
        | inr part ↦ simp (reached, part) (record { log = _; transition = broken part found new })
      ]
    ]

-- What the caller makes of the result of `write_kv_item`
abbrev reported : Bool × Table → ℤ × Table
reported (done, table) = if done then (pos 0, table) else (minus_one, table)

reported-IsOne :
    {job : Job} {i : ℕ} {c : Calls} {disk : Table} (done : Bool) (after : Table)
    → IsOne job i c disk done after
    → IsOne job i c disk (is_zero (reported (done, after)).0) (reported (done, after)).1
reported-IsOne true after a = a
reported-IsOne false after a = a

abbrev Solo : Job → ℕ → Calls → Table → ℤ × Table → Type 0
Solo job i c disk (result, disk') = IsOne job i c disk (is_zero result) disk'

-- The same at the row of the key, with the result of the caller
write_back :
    (job : Job) (i : ℕ) (c : Calls) (disk : Table) (row row' : List Item)
    → read_kv_item c.reading disk (place job) ≡ some row
    → new_row job row ≡ some row'
    → Solo job i c disk (reported (write_kv_item c.writing c.torn disk row' (place job)))
write_back job i c disk row row' found new = reported-IsOne _ _ (
    write_kv_item-IsOne job i c disk row row'
      (read_kv_item_found c.reading disk (place job) row found) new)

-- The call itself, for parameters that pass the checks: its result and the table
unfoldable pub solo : Job → Calls → Table → ℤ × Table
solo (get_job key value len) c disk = ((hash_table_get c disk key value (pos len)).result, disk)
solo (put_job key value len) c disk = hash_table_put c disk key value (pos len)
solo (rm_job key) c disk = hash_table_rm c disk key

-- What stops a get or a put before it reads
stopped :
    (job : Job) (i : ℕ) (c : Calls) (disk : Table) (len : ℕ)
    → (len ≡ 0 → IsEmpty job)
    → (len == 0 || not c.malloc_ok) ≡ true
    → IsOne job i c disk false disk
stopped job i c disk len empty bad = elim (Bool-cases c.malloc_ok) [
  | inr none_left ↦ record { log = _; transition = no_memory none_left }
  | inl ok ↦ record { log = _; transition = no_bytes (empty (ground (arith, bad, ok))) }
]

Solo-put :
    (i : ℕ) (c : Calls) (disk : Table) (key value : List ℕ) (len : ℕ)
    → Solo (put_job key value len) i c disk (hash_table_put c disk key value (pos len))
unfolding hash_table_put place new_row unwritten_ok
Solo-put i c disk key value len = elim (Bool-cases (len == 0 || not c.malloc_ok)) [
  | inl bad ↦ rw bad (stopped (put_job key value len) i c disk len (λ e. e) bad)
  | inr good ↦ elim (Option-cases (read_kv_item c.reading disk (hash_gen key))) [
    | inl none_read ↦ rw (good, none_read) (record { log = _; transition = unread none_read })
    | inr (row, found) ↦ elim (Option-cases (put_row row key value (stored_length len))) [
      | inl full ↦
          rw (good, found, full)
            (record {
              log = _;
              transition = looked (read_kv_item_found c.reading disk (hash_gen key) row found) full;
            })
      | inr (row', put) ↦
          rw (good, found, put) (write_back (put_job key value len) i c disk row row' found put)
    ]
  ]
]

Solo-rm :
    (i : ℕ) (c : Calls) (disk : Table) (key : List ℕ)
    → Solo (rm_job key) i c disk (hash_table_rm c disk key)
unfolding hash_table_rm place new_row
Solo-rm i c disk key = elim (Bool-cases c.malloc_ok) [
  | inr bad ↦ simp bad (record { log = _; transition = no_memory bad })
  | inl good ↦ elim (Option-cases (read_kv_item c.reading disk (hash_gen key))) [
    | inl none_read ↦ simp (good, none_read) (record { log = _; transition = unread none_read })
    | inr (row, found) ↦
        simp (good, found) (write_back (rm_job key) i c disk row (rm_row row key) found refl)
  ]
]

-- A get that reads its row
looked_at :
    (i : ℕ) (c : Calls) (disk : Table) (key value : List ℕ) (len : ℕ) (row : List Item) (ok : Bool)
    → get_elem? disk (place (get_job key value len)) ≡ some row
    → unwritten_ok (get_job key value len) row ≡ ok
    → IsOne (get_job key value len) i c disk ok disk
unfolding new_row
looked_at i c disk key value len row ok found e =
    subst (λ b. IsOne (get_job key value len) i c disk b disk) e
      (record { log = _; transition = looked found refl })

solo_get :
    (i : ℕ) (c : Calls) (disk : Table) (key value : List ℕ) (len : ℕ)
    → IsOne
        (get_job key value len)
        i
        c
        disk
        (is_zero (hash_table_get c disk key value (pos len)).result)
        disk
unfolding hash_table_get place unwritten_ok
solo_get i c disk key value len = elim (Bool-cases (len == 0 || not c.malloc_ok)) [
  | inl bad ↦ rw bad (stopped (get_job key value len) i c disk len (λ e. e) bad)
  | inr good ↦ elim (Option-cases (read_kv_item c.reading disk (hash_gen key))) [
    | inl none_read ↦ rw (good, none_read) (record { log = _; transition = unread none_read })
    | inr (row, found) ↦
        let here = read_kv_item_found c.reading disk (hash_gen key) row found in
        elim (Option-cases (get_row row key)) [
          | inl missing ↦
              rw (good, found, missing)
                (looked_at i c disk key value len row false here (rw (unwritten_ok, missing) refl))
          | inr (p, hit) ↦
              rw (good, found, hit)
                (looked_at i c disk key value len row true here (rw (unwritten_ok, hit) refl))
        ]
  ]
]

-- The transition is that of the call, and a course of the store in which each call happens at once.
pub record IsAtomic (job : ℕ → Job) (i : ℕ) (c : Calls) (disk : Table) (ok : Bool) (disk' : Table)
    : Type 0 where
  pub log : List Effect
  pub transition : Transition (job i) i c disk log ok disk'
  pub serial : Atomic job disk log disk'

-- `kv_set`, `kv_get` and `kv_del` alone, whatever the system calls return, are one transition with their
-- result and their table. Without a row, or when the write does not begin, -1 and the same table; for a
-- row that is not written back, 0 or -1 as the get finds its key or not, and -1 for a full row; for
-- a write, 0 and the changed row, or, when the write breaks off, -1 and what the file holds in the
-- place of the row. The transition is one of the store in which each call happens at once.
pub solo-IsAtomic :
    (job : ℕ → Job) (i : ℕ) (c : Calls) (disk : Table)
    → IsAtomic job i c disk (is_zero (solo (job i) c disk).0) (solo (job i) c disk).1
unfolding solo
solo-IsAtomic job i c disk =
    let one = by_job (job i) in
    record {
      log = one.log;
      transition = one.transition;
      serial = Transition-Atomic job i c disk _ _ _ one.transition;
    }
  where
    by_job : (j : Job) → IsOne j i c disk (is_zero (solo j c disk).0) (solo j c disk).1
    by_job (get_job key value len) = solo_get i c disk key value len
    by_job (put_job key value len) = Solo-put i c disk key value len
    by_job (rm_job key) = Solo-rm i c disk key
