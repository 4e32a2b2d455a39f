-- ===== src/Os/Balance.antt =====
-- The handles leave no block behind.
use clink3_wiki.Prelude.{
  ℕ, ◌<◌, ◌≡◌, ◌⊎◌, inl, inr, refl, List, ◌∷◌, Bool, true, false, Option, none, some, lt→ltb, arith,
}
use native.Mathlib.Nat.{mod-lt}
use clink3_wiki.Prelude.Int.{ℤ}
use clink3_wiki.Os.Handles.{
  hal_free, hal_malloc, initialized, mutex_create, mutex_destroy, semaphore_create,
  semaphore_destroy, timer_create, timer_delete, random,
}

free_newest : (block : ℕ) (blocks : List ℕ) → hal_free block (block ∷ blocks) ≡ blocks
unfolding hal_free
free_newest block blocks = ground arith

-- A constructor gave no handle and left the blocks as they were, or the destructor of its handle
-- does.
abbrev pub Balanced : List ℕ → (Option ℕ → List ℕ → List ℕ) → Option ℕ × List ℕ → Type 0
Balanced blocks destroy r =
    ((r.0 ≡ none) × (r.1 ≡ blocks)) ⊎ ((h : ℕ) × (r.0 ≡ some h) × (destroy r.0 r.1 ≡ blocks))

initialized-Balanced :
    (found : Option ℕ) (ok : Bool) (blocks : List ℕ) (destroy : Option ℕ → List ℕ → List ℕ)
    → ((h : ℕ) (bs : List ℕ) → destroy (some h) bs ≡ hal_free h bs)
    → Balanced blocks destroy (initialized ok (hal_malloc found blocks))
initialized-Balanced none ok blocks destroy d = inl (refl, refl)
initialized-Balanced (some h) true blocks destroy d =
    inr (h, refl, rw (d h (h ∷ blocks)) (free_newest h blocks))
initialized-Balanced (some h) false blocks destroy d = inl (refl, free_newest h blocks)

timer_create-Balanced :
    (has_func : Bool) (found : Option ℕ) (ok : Bool) (ret : ℤ) (blocks : List ℕ)
    → Balanced blocks (λ h bs. (timer_delete ret h bs).1) (timer_create has_func found ok blocks)
unfolding timer_create timer_delete
timer_create-Balanced false found ok ret blocks = inl (refl, refl)
timer_create-Balanced true found ok ret blocks =
    initialized-Balanced found ok blocks (λ h bs. (timer_delete ret h bs).1) (λ h bs. refl)

-- Whatever the calls return, `HAL_MutexCreate`, `HAL_SemaphoreCreate` and `HAL_Timer_Create` either return NULL
-- and leave the heap as it was, or return a handle whose destruction leaves the heap as it was.
pub create-Balanced :
    (found : Option ℕ) (ok has_func : Bool) (ret : ℤ) (blocks : List ℕ)
    → Balanced blocks mutex_destroy (mutex_create found ok blocks)
      × Balanced blocks semaphore_destroy (semaphore_create found ok blocks)
      × Balanced blocks (λ h bs. (timer_delete ret h bs).1) (timer_create has_func found ok blocks)
unfolding mutex_create mutex_destroy semaphore_create semaphore_destroy
create-Balanced found ok has_func ret blocks = (
  initialized-Balanced found ok blocks mutex_destroy (λ h bs. refl),
  initialized-Balanced found ok blocks semaphore_destroy (λ h bs. refl),
  timer_create-Balanced has_func found ok ret blocks,
)

-- `HAL_Random` stays below its bound.
random_bound : (output : Option ℕ) (region : ℕ) → 0 < region → random output region < region
unfolding random
random_bound none region h = h
random_bound (some output) region h = rw (lt→ltb 0 region h) (mod-lt output h)
