-- ===== src/Os/Threads.antt =====
-- `HAL_ThreadCreate` and `HAL_ThreadDelete` by their pthread calls, and `start_sniff`.
use clink3_wiki.Prelude.{
  ℕ, ◌≡◌, refl, List, [], ◌∷◌, ◌++◌, Bool, true, false, ◌||◌, Option, none, some, ◌==◌,
  if◌then◌else◌, arith,
}
use clink3_wiki.Prelude.Int.{ℤ, pos, negsuc}
use clink3_wiki.Prelude.Text.{codes}
use clink3_wiki.Wifi.Commands.{Command}

-- The calls of pthread, on the thread that a handle names
pub data ThreadCall : Type 0 where
  create : ℕ → ThreadCall
  detach : ℕ → ThreadCall
  exit_self : ThreadCall
  cancel : ℕ → ThreadCall
  join : ℕ → ThreadCall

-- `HAL_ThreadCreate`, with what `pthread_create` returns and the handle that it stores
unfoldable pub thread_create_calls : ℤ → ℕ → List ThreadCall
thread_create_calls (negsuc n) handle = []
thread_create_calls (pos n) handle = if n == 0 then create handle ∷ detach handle ∷ [] else []

-- The same in Vendors/Jabsco/wrapper.c
unfoldable pub thread_create_calls_port : ℤ → ℕ → List ThreadCall
thread_create_calls_port (negsuc n) handle = []
thread_create_calls_port (pos n) handle = if n == 0 then create handle ∷ [] else []

-- `HAL_ThreadDelete`, the same in both ports
unfoldable pub thread_delete : Option ℕ → List ThreadCall
thread_delete none = exit_self ∷ []
thread_delete (some handle) = cancel handle ∷ join handle ∷ []

-- `start_sniff` ignores the result and the handle of its thread.
unfoldable pub start_sniff : ℤ → ℕ → List ThreadCall
unfolding thread_create_calls
start_sniff ret g_sniff_thread = thread_create_calls ret g_sniff_thread

-- `HAL_Reboot`; a failure is only printed.
abbrev reboot : List Command
reboot = codes "reboot" ∷ []

-- Whether a thread is joined that was detached before
abbrev pub joins : ℕ → List ThreadCall → Bool
joins handle [] = false
joins handle (join h ∷ calls) = h == handle || joins handle calls
joins handle (c ∷ calls) = joins handle calls

abbrev pub joins_detached : List ThreadCall → Bool
joins_detached [] = false
joins_detached (detach h ∷ calls) = joins h calls || joins_detached calls
joins_detached (c ∷ calls) = joins_detached calls

self_eq : (n : ℕ) → (n == n) ≡ true
self_eq n = ground arith

-- Deleting a thread behind its creation: the ubuntu port joins a thread that it has detached, which
-- pthread leaves undefined; the Jabsco port does not detach it.
pub thread_delete-thread_create :
    (handle : ℕ)
    → (joins_detached (thread_create_calls (pos 0) handle ++ thread_delete (some handle)) ≡ true)
      × (joins_detached (thread_create_calls_port (pos 0) handle ++ thread_delete (some handle))
          ≡ false)
unfolding thread_create_calls thread_create_calls_port thread_delete
thread_delete-thread_create handle = (rw (self_eq handle) refl, refl)
