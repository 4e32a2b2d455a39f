-- ===== src/KvStore/Threads/Moves.antt =====
-- What one step of a thread of the key-value store does: to the others, to itself and to the order of
-- the calls.
use clink3_wiki.Prelude.{ℕ, ◌≡◌, refl, sym, ◌∙◌, subst, Bool, true, false, none, some}
use clink3_wiki.KvStore.File.{Table}
use clink3_wiki.KvStore.Threads.{
  Job, Phase, holding, loaded, leaving, unwritten_ok, Shared, Move, begin_null, begin, open_new,
  open_fails, assign, check, check_null, pass, pass_null, lock, give_up, load, keep, write_fails,
  write, tear, unlock, Atomic, kept, written, torn,
}
use mathlib.Core.Option.{some-injective}
use clink3_wiki.KvStore.Threads.Settled.{
  Logged, here, there, Fine, Guarantee, same, owned, taken_lock, freed_lock,
}

leaving_lem :
    (job : ℕ → Job) (m : Shared) (i h : ℕ) (ok : Bool)
    → Fine job m i (leaving h ok)
    → (h ≡ 0) × (m.lock 0 ≡ some i)
unfolding Fine
leaving_lem job m i h false f = f
leaving_lem job m i h true f = (f.0, f.1)

pub Move-Guarantee :
    {job : ℕ → Job} {i : ℕ} {m m' : Shared} {p p' : Phase}
    → m.file ≡ some 0
    → Fine job m i p
    → Move job i m p m' p'
    → Guarantee i m m'
unfolding Fine
Move-Guarantee e f (begin_null x) = same
Move-Guarantee e f (begin x) = same
Move-Guarantee e f open_new = absurd f
Move-Guarantee e f open_fails = same
Move-Guarantee e f assign = absurd f
Move-Guarantee e f (check x) = same
Move-Guarantee e f (check_null x) = same
Move-Guarantee e f (pass x) = same
Move-Guarantee e f (pass_null x) = same
Move-Guarantee {i = i} {m = m} e f (lock {h} free) = record {
  file_same = refl;
  others_keep = λ j ne own.
      absurd (let at_zero : m.lock 0 ≡ none = subst (λ k. m.lock k ≡ none) f free in cc);
  others_owned =
      λ j ne e. absurd (ne (some-injective _ _ (sym (taken_lock m.lock h (some i) f) ∙ e)));
  log_grows = λ j l. l;
}
Move-Guarantee e f give_up = same
Move-Guarantee e f (load x) = same
Move-Guarantee e f (keep x) = owned f.1 refl (λ j ne e. e) (λ j l. there l)
Move-Guarantee e f (write_fails x) = same
Move-Guarantee e f (write x) = owned f.1 refl (λ j ne e. e) (λ j l. there l)
Move-Guarantee e f (tear t x) = owned f.1 refl (λ j ne e. e) (λ j l. there l)
Move-Guarantee {job} {i} {m} e f (unlock {h} {ok}) =
    owned (leaving_lem job m i h ok f).1 refl
      (λ j ne e. absurd (freed_lock m.lock h j (leaving_lem job m i h ok f).0 e)) (λ j l. l)

leaving-Fine :
    (job : ℕ → Job) (m : Shared) (i h : ℕ) (ok : Bool)
    → h ≡ 0
    → m.lock 0 ≡ some i
    → Logged i ok m.log
    → Fine job m i (leaving h ok)
unfolding Fine
leaving-Fine job m i h false zero_handle own l = (zero_handle, own)
leaving-Fine job m i h true zero_handle own l = (zero_handle, own, l)

-- What holds of the thread that moved
pub Move-Fine :
    {job : ℕ → Job} {i : ℕ} {m m' : Shared} {p p' : Phase}
    → m.file ≡ some 0
    → Fine job m i p
    → Move job i m p m' p'
    → Fine job m' i p'
unfolding Fine
Move-Fine e f (begin_null x) = absurd cc
Move-Fine e f (begin x) = tt
Move-Fine e f open_new = absurd f
Move-Fine e f open_fails = absurd f
Move-Fine e f assign = absurd f
Move-Fine e f (check x) = absurd f
Move-Fine e f (check_null x) = absurd f
Move-Fine e f (pass x) = some-injective _ _ (sym x ∙ e)
Move-Fine e f (pass_null x) = tt
Move-Fine {i = i} {m = m} e f (lock {h} free) = (f, taken_lock m.lock h (some i) f)
Move-Fine e f give_up = f
Move-Fine e f (load x) = (f.0, f.1, x)
Move-Fine {job} {i} {m' = m'} e f (keep {h} {row} x) =
    leaving-Fine job m' i h (unwritten_ok (job i) row) f.0 f.1 here
Move-Fine e f (write_fails x) = (f.0, f.1)
Move-Fine e f (write x) = (f.0, f.1, here)
Move-Fine e f (tear t x) = (f.0, f.1)
Move-Fine e f (unlock {ok = false}) = tt
Move-Fine e f (unlock {ok = true}) = f.2

pub Move-Atomic :
    {job : ℕ → Job} {disk0 : Table} {i : ℕ} {m m' : Shared} {p p' : Phase}
    → Fine job m i p
    → Move job i m p m' p'
    → Atomic job disk0 m.log m.disk
    → Atomic job disk0 m'.log m'.disk
unfolding Fine
Move-Atomic f (begin_null x) a = a
Move-Atomic f (begin x) a = a
Move-Atomic f open_new a = a
Move-Atomic f open_fails a = a
Move-Atomic f assign a = a
Move-Atomic f (check x) a = a
Move-Atomic f (check_null x) a = a
Move-Atomic f (pass x) a = a
Move-Atomic f (pass_null x) a = a
Move-Atomic f (lock free) a = a
Move-Atomic f give_up a = a
Move-Atomic f (load x) a = a
Move-Atomic {i = i} f (keep x) a = kept i a f.2 x
Move-Atomic f (write_fails x) a = a
Move-Atomic {i = i} f (write x) a = written i a f.2 x
Move-Atomic {i = i} f (tear t x) a = torn i t a f.2 x
Move-Atomic f unlock a = a

-- Between the return of `pthread_mutex_lock` and that of `pthread_mutex_unlock`
unfoldable pub inside : Phase → Bool
inside (holding h) = true
inside (loaded h row) = true
inside (leaving h ok) = true
inside _ = false

pub Move-inside :
    {job : ℕ → Job} {i : ℕ} {m m' : Shared} {p p' : Phase}
    → Fine job m i p
    → (m.lock 0 ≡ some i → inside p ≡ true)
    → Move job i m p m' p'
    → m'.lock 0 ≡ some i
    → inside p' ≡ true
unfolding Fine inside
Move-inside f own (begin_null x) e = own e
Move-inside f own (begin x) e = own e
Move-inside f own open_new e = own e
Move-inside f own open_fails e = own e
Move-inside f own assign e = own e
Move-inside f own (check x) e = own e
Move-inside f own (check_null x) e = own e
Move-inside f own (pass x) e = own e
Move-inside f own (pass_null x) e = own e
Move-inside f own (lock free) e = refl
Move-inside f own give_up e = refl
Move-inside f own (load x) e = refl
Move-inside f own (keep x) e = refl
Move-inside f own (write_fails x) e = refl
Move-inside f own (write x) e = refl
Move-inside f own (tear t x) e = refl
Move-inside {job} {i} {m} f own (unlock {h} {ok}) e =
    absurd (freed_lock m.lock h i (leaving_lem job m i h ok f).0 e)
