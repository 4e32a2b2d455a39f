-- ===== src/KvStore/Threads/Progress.antt =====
-- No thread of the key-value store waits for ever once `file` is set.
use clink3_wiki.Prelude.{
  ℕ, ◌≡◌, refl, sym, subst, ◌≢◌, Bool, true, none, some, ◌+◌, ◌≤◌, arith, ◌⊎◌, inl, inr,
  Option-cases,
}
use clink3_wiki.KvStore.File.{Table}
use clink3_wiki.KvStore.Threads.{
  Job, Phase, idle, opening, assigning, opened, passing, calling, holding, loaded, leaving,
  finished, Shared, Move, begin_null, begin, open_new, open_fails, assign, check, check_null, pass,
  pass_null, lock, give_up, load, keep, write_fails, write, tear, unlock, System, Reach,
  behind_first, new_row,
}
use clink3_wiki.KvStore.Threads.Serial.{Reach-IsSettled}
use clink3_wiki.KvStore.Threads.Settled.{Fine}
use clink3_wiki.KvStore.Threads.Moves.{inside}

-- How many steps a thread makes at most until it has returned
pub rank : Phase → ℕ
rank idle = 9
rank opening = 8
rank (assigning r) = 7
rank opened = 6
rank passing = 5
rank (calling h) = 4
rank (holding h) = 3
rank (loaded h row) = 2
rank (leaving h ok) = 1
rank (finished ok) = 0

-- A thread is not blocked: it has a step, which brings it nearer to its return.
pub record CanMove (job : ℕ → Job) (m : Shared) (i : ℕ) (p : Phase) : Type 0 where
  pub mem_after : Shared
  pub phase_after : Phase
  pub move : Move job i m p mem_after phase_after
  pub nearer : rank phase_after + 1 ≤ rank p

CanMove-inside :
    (job : ℕ → Job) (m : Shared) (i : ℕ) (p : Phase) → inside p ≡ true → CanMove job m i p
unfolding inside rank
CanMove-inside job m i (holding h) e = record {
  mem_after = _;
  phase_after = _;
  move = give_up;
  nearer = omega arith;
}
CanMove-inside job m i (loaded h row) e = elim (Option-cases (new_row (job i) row)) [
  | inl no_write ↦ record {
    mem_after = _;
    phase_after = _;
    move = keep no_write;
    nearer = omega arith;
  }
  | inr (row', changed) ↦ record {
    mem_after = _;
    phase_after = _;
    move = write changed;
    nearer = omega arith;
  }
]
CanMove-inside job m i (leaving h ok) e = record {
  mem_after = _;
  phase_after = _;
  move = unlock;
  nearer = omega arith;
}
CanMove-inside job m i idle e = absurd cc
CanMove-inside job m i opening e = absurd cc
CanMove-inside job m i (assigning r) e = absurd cc
CanMove-inside job m i opened e = absurd cc
CanMove-inside job m i passing e = absurd cc
CanMove-inside job m i (calling h) e = absurd cc
CanMove-inside job m i (finished ok) e = absurd cc

CanMove-Fine :
    (job : ℕ → Job) (m : Shared) (i : ℕ) (p : Phase)
    → m.file ≡ some 0
    → Fine job m i p
    → ((ok : Bool) → p ≢ finished ok)
    → CanMove job m i p ⊎ ((j : ℕ) × (m.lock 0 ≡ some j))
unfolding Fine rank inside
CanMove-Fine job m i idle e f ne =
    inl (record { mem_after = _; phase_after = _; move = begin e; nearer = omega arith })
CanMove-Fine job m i opening e f ne = absurd f
CanMove-Fine job m i (assigning r) e f ne = absurd f
CanMove-Fine job m i opened e f ne = absurd f
CanMove-Fine job m i passing e f ne =
    inl (record { mem_after = _; phase_after = _; move = pass e; nearer = omega arith })
CanMove-Fine job m i (calling h) e f ne = elim (Option-cases (m.lock 0)) [
  | inl free ↦ inl (record {
    mem_after = _;
    phase_after = _;
    move = lock (subst (λ k. m.lock k ≡ none) (sym f) free);
    nearer = omega arith;
  })
  | inr held ↦ inr held
]
CanMove-Fine job m i (holding h) e f ne = inl (CanMove-inside job m i (holding h) refl)
CanMove-Fine job m i (loaded h row) e f ne = inl (CanMove-inside job m i (loaded h row) refl)
CanMove-Fine job m i (leaving h ok) e f ne = inl (CanMove-inside job m i (leaving h ok) refl)
CanMove-Fine job m i (finished ok) e f ne = absurd (ne ok refl)

rank_bound : (p : Phase) → rank p ≤ 9
unfolding rank
rank_bound idle = omega arith
rank_bound opening = omega arith
rank_bound (assigning r) = omega arith
rank_bound opened = omega arith
rank_bound passing = omega arith
rank_bound (calling h) = omega arith
rank_bound (holding h) = omega arith
rank_bound (loaded h row) = omega arith
rank_bound (leaving h ok) = omega arith
rank_bound (finished ok) = omega arith

-- Every step of a thread brings it nearer to its return.
Move-rank :
    {job : ℕ → Job} {i : ℕ} {m m' : Shared} {p p' : Phase}
    → Move job i m p m' p'
    → rank p' + 1 ≤ rank p
unfolding rank
Move-rank (begin_null e) = omega arith
Move-rank (begin e) = omega arith
Move-rank open_new = omega arith
Move-rank open_fails = omega arith
Move-rank assign = omega arith
Move-rank (check e) = omega arith
Move-rank (check_null e) = omega arith
Move-rank (pass e) = omega arith
Move-rank (pass_null e) = omega arith
Move-rank (lock free) = omega arith
Move-rank give_up = omega arith
Move-rank (load found) = omega arith
Move-rank (keep same) = omega arith
Move-rank (write_fails new) = omega arith
Move-rank (write new) = omega arith
Move-rank (tear left new) = omega arith
Move-rank unlock = omega arith

-- Once a first call has set `file`, in every interleaving: a call that has not returned has a step, or
-- another one holds the mutex and has a step; and every step brings its own call nearer to the return,
-- which is at most nine steps away.
pub kv_threads-CanMove :
    (job : ℕ → Job) (disk : Table) (s : System)
    → Reach job (behind_first disk) s
    → (i : ℕ) → ((ok : Bool) → s.phase i ≢ finished ok)
    → (CanMove job s.mem i (s.phase i)
        ⊎ ((j : ℕ) × (s.mem.lock 0 ≡ some j) × CanMove job s.mem j (s.phase j)))
      × ((j : ℕ) (m' : Shared) (p' : Phase)
          → Move job j s.mem (s.phase j) m' p'
          → (rank p' + 1 ≤ rank (s.phase j)) × (rank (s.phase j) ≤ 9))
kv_threads-CanMove job disk s r i ne =
    let w = Reach-IsSettled r in
    (
      elim (CanMove-Fine job s.mem i (s.phase i) w.file_set (w.fine i) ne) [
        | inl own ↦ inl own
        | inr (j, held) ↦ inr (j, held, CanMove-inside job s.mem j (s.phase j) (w.owner j held))
      ],
      λ j m' p' step. (Move-rank step, rank_bound (s.phase j)),
    )
