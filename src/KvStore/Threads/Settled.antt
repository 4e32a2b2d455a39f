-- ===== src/KvStore/Threads/Settled.antt =====
-- What holds of each thread of the key-value store, and what the steps of the others leave of it.
use clink3_wiki.Prelude.{
  ℕ, ◌≡◌, refl, ap, sym, ◌∙◌, subst, ◌≢◌, List, ◌∷◌, Bool, true, false, Option, none, some,
  get_elem?,
}
use clink3_wiki.KvStore.Row.{Item}
use clink3_wiki.KvStore.Threads.{
  Job, place, Phase, idle, opening, assigning, opened, passing, calling, holding, loaded, leaving,
  finished, Effect, Shared, at_index,
}
use mathlib.Core.Logic.{ite}
use native.Mathlib.Decide.{ℕ_discrete}

module _ {ℓ} {A : Type ℓ} (f : ℕ → A) (i : ℕ) (a : A) where
  at_index_self : at_index f i a i ≡ a
  at_index_self = elim (ℕ_discrete i i) as (λ d. ite d a (f i) ≡ a) [
    | yes e ↦ refl
    | no ne ↦ absurd (ne refl)
  ]

  at_index_other : (j : ℕ) → i ≢ j → at_index f i a j ≡ f j
  at_index_other j ne = elim (ℕ_discrete i j) as (λ d. ite d a (f j) ≡ f j) [
    | yes e ↦ absurd (ne e)
    | no apart ↦ refl
  ]

-- A family behind a change, from what holds of the changed entry and of the others
pub at_index_elim :
    {A : Type 0} (P : ℕ → A → Type 0) (f : ℕ → A) (i : ℕ) (a : A)
    → P i a
    → ((j : ℕ) → i ≢ j → P j (f j))
    → (j : ℕ) → P j (at_index f i a j)
at_index_elim P f i a mine theirs j = elim (ℕ_discrete i j) as (λ d. P j (ite d a (f j))) [
  | yes e ↦ subst (λ k. P k a) e mine
  | no ne ↦ theirs j ne
]

-- The lock of the handle 0
pub taken_lock : (f : ℕ → Option ℕ) (h : ℕ) (o : Option ℕ) → h ≡ 0 → at_index f h o 0 ≡ o
taken_lock f h o e = subst (λ k. at_index f k o 0 ≡ o) (sym e) (at_index_self f 0 o)

pub freed_lock : (f : ℕ → Option ℕ) (h j : ℕ) → h ≡ 0 → at_index f h none 0 ≢ some j
freed_lock f h j e own = let gone = taken_lock f h none e in cc

-- A call of the log with its result
pub data Logged (i : ℕ) (ok : Bool) : List Effect → Type 0 where
  here :
      {seen : List Item} {log : List Effect}
      → Logged i ok (record { call = i; ok = ok; seen = seen } ∷ log)
  there : {e : Effect} {log : List Effect} → Logged i ok log → Logged i ok (e ∷ log)

-- What holds of a thread by its phase, when `file` is the handle 0: who is behind
-- `pthread_mutex_lock` owns that mutex, the row that it read is still that of the file, and a call
-- that returns 0 is in the log.
unfoldable pub Fine : (ℕ → Job) → Shared → ℕ → Phase → Type 0
Fine job m i idle = Unit
Fine job m i opening = ⊥
Fine job m i (assigning r) = ⊥
Fine job m i opened = ⊥
Fine job m i passing = Unit
Fine job m i (calling h) = h ≡ 0
Fine job m i (holding h) = (h ≡ 0) × (m.lock 0 ≡ some i)
Fine job m i (loaded h row) =
    (h ≡ 0) × (m.lock 0 ≡ some i) × (get_elem? m.disk (place (job i)) ≡ some row)
Fine job m i (leaving h false) = (h ≡ 0) × (m.lock 0 ≡ some i)
Fine job m i (leaving h true) = (h ≡ 0) × (m.lock 0 ≡ some i) × Logged i true m.log
Fine job m i (finished false) = Unit
Fine job m i (finished true) = Logged i true m.log

-- What a step of the thread `i` leaves to the others
pub record Guarantee (i : ℕ) (m m' : Shared) : Type 0 where
  pub file_same : m'.file ≡ m.file
  pub others_keep : (j : ℕ) → i ≢ j → m.lock 0 ≡ some j → (m'.lock 0 ≡ some j) × (m'.disk ≡ m.disk)
  pub others_owned : (j : ℕ) → i ≢ j → m'.lock 0 ≡ some j → m.lock 0 ≡ some j
  pub log_grows : (j : ℕ) → Logged j true m.log → Logged j true m'.log

pub same : {i : ℕ} {m : Shared} → Guarantee i m m
same = record {
  file_same = refl;
  others_keep = λ j ne e. (e, refl);
  others_owned = λ j ne e. e;
  log_grows = λ j l. l;
}

-- A thread that does not move keeps what holds of it.
pub Guarantee-Fine :
    (job : ℕ → Job) {i : ℕ} {m m' : Shared}
    → Guarantee i m m'
    → (j : ℕ) → i ≢ j
    → (p : Phase) → Fine job m j p
    → Fine job m' j p
unfolding Fine
Guarantee-Fine job g j ne idle f = tt
Guarantee-Fine job g j ne opening f = f
Guarantee-Fine job g j ne (assigning r) f = f
Guarantee-Fine job g j ne opened f = f
Guarantee-Fine job g j ne passing f = tt
Guarantee-Fine job g j ne (calling h) f = f
Guarantee-Fine job g j ne (holding h) f = (f.0, (g.others_keep j ne f.1).0)
Guarantee-Fine job g j ne (loaded h row) f =
    let (held, disk) = g.others_keep j ne f.1 in
    (f.0, held, ap (λ d. get_elem? d (place (job j))) disk ∙ f.2)
Guarantee-Fine job g j ne (leaving h false) f = (f.0, (g.others_keep j ne f.1).0)
Guarantee-Fine job g j ne (leaving h true) f = (f.0, (g.others_keep j ne f.1).0, g.log_grows j f.2)
Guarantee-Fine job g j ne (finished false) f = tt
Guarantee-Fine job g j ne (finished true) f = g.log_grows j f

-- A step under the mutex: nobody else owns it.
pub owned :
    {i : ℕ} {m m' : Shared}
    → m.lock 0 ≡ some i
    → m'.file ≡ m.file
    → ((j : ℕ) → i ≢ j → m'.lock 0 ≡ some j → m.lock 0 ≡ some j)
    → ((j : ℕ) → Logged j true m.log → Logged j true m'.log)
    → Guarantee i m m'
owned own file theirs grows = record {
  file_same = file;
  others_keep = λ j ne e. absurd (ne cc);
  others_owned = theirs;
  log_grows = grows;
}
