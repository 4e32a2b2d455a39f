-- ===== src/KvStore/Threads/Serial.antt =====
-- Once `file` is set, the calls of all threads happen one after the other.
use clink3_wiki.Prelude.{ℕ, ◌≡◌, refl, sym, ◌∙◌, subst, true, false, some}
use clink3_wiki.KvStore.File.{Table}
use clink3_wiki.KvStore.Threads.{
  Job, Phase, idle, opening, assigning, opened, passing, calling, holding, loaded, leaving,
  finished, Shared, System, Step, pick, Reach, start, later, behind_first, Atomic, none_yet,
}
use mathlib.Core.Option.{some-injective}
use clink3_wiki.KvStore.Threads.Settled.{Logged, Fine, Guarantee-Fine, at_index_elim}
use clink3_wiki.KvStore.Threads.Moves.{Move-Guarantee, Move-Fine, Move-Atomic, Move-inside, inside}

-- The state of the threads once `file` is the handle 0
pub record IsSettled (job : ℕ → Job) (disk0 : Table) (s : System) : Type 0 where
  pub file_set : s.mem.file ≡ some 0
  pub fine : (j : ℕ) → Fine job s.mem j (s.phase j)
  pub owner : (j : ℕ) → s.mem.lock 0 ≡ some j → inside (s.phase j) ≡ true
  pub serial : Atomic job disk0 s.mem.log s.mem.disk

behind_first-IsSettled : (job : ℕ → Job) (disk : Table) → IsSettled job disk (behind_first disk)
unfolding Fine
behind_first-IsSettled job disk = record {
  file_set = refl;
  fine = λ j. tt;
  owner = λ j e. absurd cc;
  serial = none_yet;
}

-- Every step of every thread keeps the state settled.
pub Step-IsSettled :
    {job : ℕ → Job} {disk0 : Table} {s t : System}
    → Step job s t
    → IsSettled job disk0 s
    → IsSettled job disk0 t
Step-IsSettled {job} {s = s} (pick i {m} {p} mv) w =
    let g = Move-Guarantee w.file_set (w.fine i) mv in
    record {
      file_set = g.file_same ∙ w.file_set;
      fine =
          at_index_elim (λ j q. Fine job m j q) s.phase i p (Move-Fine w.file_set (w.fine i) mv)
            (λ j ne. Guarantee-Fine job g j ne (s.phase j) (w.fine j));
      owner =
          at_index_elim (λ j q. m.lock 0 ≡ some j → inside q ≡ true) s.phase i p
            (Move-inside (w.fine i) (w.owner i) mv) (λ j ne e. w.owner j (g.others_owned j ne e));
      serial = Move-Atomic (w.fine i) mv w.serial;
    }

pub Reach-IsSettled :
    {job : ℕ → Job} {disk : Table} {s : System}
    → Reach job (behind_first disk) s
    → IsSettled job disk s
Reach-IsSettled {job} {disk} start = behind_first-IsSettled job disk
Reach-IsSettled (later r st) = Step-IsSettled st (Reach-IsSettled r)

Fine-Logged :
    (job : ℕ → Job) (m : Shared) (i : ℕ) (p : Phase)
    → Fine job m i p
    → p ≡ finished true
    → Logged i true m.log
unfolding Fine
Fine-Logged job m i p f e = subst (λ q. Fine job m i q) e f

Fine-owner :
    (job : ℕ → Job) (m : Shared) (i : ℕ) (p : Phase)
    → Fine job m i p
    → inside p ≡ true
    → m.lock 0 ≡ some i
unfolding Fine inside
Fine-owner job m i (holding h) f e = f.1
Fine-owner job m i (loaded h row) f e = f.1
Fine-owner job m i (leaving h false) f e = f.1
Fine-owner job m i (leaving h true) f e = f.1
Fine-owner job m i idle f e = absurd cc
Fine-owner job m i opening f e = absurd cc
Fine-owner job m i (assigning r) f e = absurd cc
Fine-owner job m i opened f e = absurd cc
Fine-owner job m i passing f e = absurd cc
Fine-owner job m i (calling h) f e = absurd cc
Fine-owner job m i (finished ok) f e = absurd cc

-- Once a first call has set `file`, in every interleaving of any number of calls: the table is the
-- one that the calls of the log make one after the other, each read and changed in one transition
-- with the result that it returns; every call that returned 0 is in the log; and no two threads are
-- between the lock and the unlock at the same time.
pub kv_threads-serial :
    (job : ℕ → Job) (disk : Table) (s : System)
    → Reach job (behind_first disk) s
    → Atomic job disk s.mem.log s.mem.disk
      × ((i : ℕ) → s.phase i ≡ finished true → Logged i true s.mem.log)
      × ((i j : ℕ) → inside (s.phase i) ≡ true → inside (s.phase j) ≡ true → i ≡ j)
kv_threads-serial job disk s r =
    let w = Reach-IsSettled r in
    let owner : (i : ℕ) → inside (s.phase i) ≡ true → s.mem.lock 0 ≡ some i =
      λ i e. Fine-owner job s.mem i (s.phase i) (w.fine i) e in
    (
      w.serial,
      λ i e. Fine-Logged job s.mem i (s.phase i) (w.fine i) e,
      λ i j ei ej. some-injective _ _ (sym (owner i ei) ∙ owner j ej),
    )
