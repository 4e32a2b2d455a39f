-- ===== src/KvStore/Session.antt =====
-- Sequences of calls of `HAL_Kv_Set`, `HAL_Kv_Get` and `kv_del`.
use clink3_wiki.Prelude.{ℕ, List, [], ◌∷◌, Option}
use clink3_wiki.Prelude.Int.{ℤ}
use clink3_wiki.KvStore.Handle.{Store, Env, kv_set, kv_get, kv_del}

-- A call with its environment and its arguments
pub data KvCall : Type 0 where
  set_call : Env → Option (List ℕ) → Option (List ℕ) → ℤ → KvCall
  get_call : Env → Option (List ℕ) → Option (List ℕ) → ℤ → KvCall
  del_call : Env → Option (List ℕ) → KvCall

abbrev pub env_of : KvCall → Env
env_of (set_call env key value len) = env
env_of (get_call env key value len) = env
env_of (del_call env key) = env

-- The store behind a call
unfoldable pub kv_call : KvCall → Store → Store
kv_call (set_call env key value len) s = (kv_set env s key value len).1
kv_call (get_call env key value len) s = (kv_get env s key value len).1
kv_call (del_call env key) s = (kv_del env s key).1

unfoldable pub kv_calls : List KvCall → Store → Store
kv_calls [] s = s
kv_calls (call ∷ calls) s = kv_calls calls (kv_call call s)
