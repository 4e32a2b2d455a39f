-- ===== src/Os/Handles.antt =====
-- The mutexes, semaphores and timers: blocks of the heap behind a pointer. The state is the list of
-- the blocks that are allocated. Also `HAL_ThreadCreate` and `HAL_Random`.
use clink3_wiki.Prelude.{
  ℕ, ◌%◌, List, [], ◌∷◌, Bool, true, false, Option, none, some, ltb, ◌==◌, if◌then◌else◌,
}
use clink3_wiki.Prelude.Int.{ℤ, pos, negsuc, minus_one}

-- `HAL_Free` of a block
unfoldable pub hal_free : ℕ → List ℕ → List ℕ
hal_free ptr [] = []
hal_free ptr (block ∷ blocks) =
    let rest = hal_free ptr blocks in if block == ptr then blocks else block ∷ rest

-- `HAL_Malloc`, given the block that `malloc` finds, or `none`
abbrev pub hal_malloc : Option ℕ → List ℕ → Option ℕ × List ℕ
hal_malloc none blocks = (none, blocks)
hal_malloc (some block) blocks = (some block, block ∷ blocks)

-- What follows the allocation: with `false` the handle cannot be initialized.
abbrev pub initialized : Bool → Option ℕ × List ℕ → Option ℕ × List ℕ
initialized ok (none, blocks) = (none, blocks)
initialized true (some handle, blocks) = (some handle, blocks)
initialized false (some handle, blocks) = (none, hal_free handle blocks)

-- `HAL_MutexCreate`, given whether `pthread_mutex_init` returns 0
unfoldable pub mutex_create : Option ℕ → Bool → List ℕ → Option ℕ × List ℕ
mutex_create found ok blocks = initialized ok (hal_malloc found blocks)

-- `HAL_MutexDestroy`; a failure of `pthread_mutex_destroy` is only printed.
unfoldable pub mutex_destroy : Option ℕ → List ℕ → List ℕ
mutex_destroy none blocks = blocks
mutex_destroy (some mutex) blocks = hal_free mutex blocks

-- `HAL_SemaphoreCreate`, given whether `sem_init` returns 0
unfoldable pub semaphore_create : Option ℕ → Bool → List ℕ → Option ℕ × List ℕ
semaphore_create found ok blocks = initialized ok (hal_malloc found blocks)

-- `HAL_SemaphoreDestroy`
unfoldable pub semaphore_destroy : Option ℕ → List ℕ → List ℕ
semaphore_destroy none blocks = blocks
semaphore_destroy (some sem) blocks = hal_free sem blocks

-- `HAL_Timer_Create`, given whether `func` is not NULL and whether `timer_create` returns 0
unfoldable pub timer_create : Bool → Option ℕ → Bool → List ℕ → Option ℕ × List ℕ
timer_create has_func found ok blocks =
    if has_func then initialized ok (hal_malloc found blocks) else (none, blocks)

-- `HAL_Timer_Delete`, with what `timer_delete` returns
unfoldable pub timer_delete : ℤ → Option ℕ → List ℕ → ℤ × List ℕ
timer_delete ret none blocks = (minus_one, blocks)
timer_delete ret (some timer) blocks = (ret, hal_free timer blocks)

-- `HAL_ThreadCreate`, with what `pthread_create` returns: the result, and `*stack_used` for a pointer
-- that is not NULL
unfoldable pub thread_create : ℤ → Option ℕ → ℤ × Option ℕ
thread_create (negsuc n) stack_used = (minus_one, elim stack_used [ none ↦ none | some n ↦ some 0 ])
thread_create (pos n) stack_used =
    ((if n == 0 then pos 0 else minus_one), elim stack_used [ none ↦ none | some n ↦ some 0 ])

-- `HAL_Random`, with the number that is read from /dev/urandom, or `none` when it cannot be opened or
-- read
unfoldable pub random : Option ℕ → ℕ → ℕ
random none region = 0
random (some output) region = if ltb 0 region then output % region else 0
