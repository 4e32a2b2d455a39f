-- ===== src/KvStore/Idle.antt =====
-- What every call of the store keeps: the lock is free and the rows of the file are whole.
use clink3_wiki.Prelude.{
  ℕ, ◌≡◌, refl, ap, List, [], ◌∷◌, true, false, Option, none, some, inl, inr, All, subst, sym, ◌⊎◌,
  Bool-cases, Option-cases,
}
use clink3_wiki.Prelude.Int.{ℤ, not_positive}
use clink3_wiki.KvStore.File.{Table, Calls, create_hash_file}
use clink3_wiki.KvStore.Rows.{IsSized}
use clink3_wiki.KvStore.Handle.{
  KvFile, Store, Env, kv_open, opened, rows_of, kv_set_locked, kv_get_locked, kv_del_locked, kv_set,
  kv_get, kv_del,
}
use clink3_wiki.KvStore.Session.{KvCall, set_call, get_call, del_call, env_of, kv_call, kv_calls}
use clink3_wiki.KvStore.Whole.{
  IsWhole, create_hash_file-IsWhole, hash_table_put-IsSized, hash_table_rm-IsSized,
  put_back-IsWhole,
}

-- The lock of a handle is free.
abbrev pub IsIdle : Option KvFile → Type 0
IsIdle none = Unit
IsIdle (some f) = f.locked ≡ false

pub record IsWellFormed (s : Store) : Type 0 where
  pub idle : IsIdle s.file
  pub whole : IsWhole s.disk

kv_open-IsWellFormed :
    (env : Env) (disk : Option Table)
    → IsWhole disk
    → IsIdle (kv_open env disk).0 × IsWhole (kv_open env disk).1
unfolding kv_open
kv_open-IsWellFormed env disk h = elim (Bool-cases env.handle_ok) [
  | inr e ↦ rw e (tt, h)
  | inl e ↦ rw e (with_handle disk h)
]
  where
    with_handle :
        (d : Option Table)
        → IsWhole d
        → IsIdle (kv_open (record env { handle_ok = true }) d).0
          × IsWhole (kv_open (record env { handle_ok = true }) d).1
    with_handle (some table) w = (refl, w)
    with_handle none w = elim (Bool-cases (create_hash_file env.calls).1) [
      | inl done ↦ rw done (refl, create_hash_file-IsWhole env.calls)
      | inr failed ↦ rw failed (tt, create_hash_file-IsWhole env.calls)
    ]

-- The store that `opened` makes without a handle
abbrev fresh : Env → Store → Store
fresh env s = record { file = (kv_open env s.disk).0; disk = (kv_open env s.disk).1 }

opened_cases : (env : Env) (s : Store) → (opened env s ≡ s) ⊎ (opened env s ≡ fresh env s)
unfolding opened
opened_cases env s = elim (Option-cases s.file) [
  | inl e ↦ inr (rw e refl)
  | inr (f, e) ↦ inl (rw e refl)
]

pub opened-IsWellFormed : (env : Env) (s : Store) → IsWellFormed s → IsWellFormed (opened env s)
opened-IsWellFormed env s h = elim (opened_cases env s) [
  | inl same ↦ subst IsWellFormed (sym same) h
  | inr new ↦
      let r = kv_open-IsWellFormed env s.disk h.whole in
      subst IsWellFormed (sym new) (record { idle = r.0; whole = r.1 })
]

module _ (c : Calls) (f : KvFile) (disk : Option Table) (torn : IsSized c.torn) (h : IsWhole disk)
    (idle : f.locked ≡ false) where
  kv_set_locked-IsWellFormed :
      (key value : Option (List ℕ)) (len : ℤ)
      → IsWellFormed (kv_set_locked c f disk key value len).1
  unfolding kv_set_locked
  kv_set_locked-IsWellFormed none value len = record { idle = idle; whole = h }
  kv_set_locked-IsWellFormed (some key) none len = record { idle = idle; whole = h }
  kv_set_locked-IsWellFormed (some key) (some value) len = elim (Bool-cases (not_positive len)) [
    | inl bad ↦ rw bad (record { idle = idle; whole = h })
    | inr good ↦ rw good (record {
      idle = refl;
      whole =
          put_back-IsWhole disk _ (hash_table_put-IsSized c (rows_of disk) torn h key value len);
    })
  ]

  kv_get_locked-IsWellFormed :
      (key value : Option (List ℕ)) (len : ℤ)
      → IsWellFormed (kv_get_locked c f disk key value len).1
  unfolding kv_get_locked
  kv_get_locked-IsWellFormed none value len = record { idle = idle; whole = h }
  kv_get_locked-IsWellFormed (some key) none len = record { idle = idle; whole = h }
  kv_get_locked-IsWellFormed (some key) (some value) len = elim (Bool-cases (not_positive len)) [
    | inl bad ↦ rw bad (record { idle = idle; whole = h })
    | inr good ↦ rw good (record { idle = refl; whole = h })
  ]

  kv_del_locked-IsWellFormed : (key : Option (List ℕ)) → IsWellFormed (kv_del_locked c f disk key).1
  unfolding kv_del_locked
  kv_del_locked-IsWellFormed none = record { idle = idle; whole = h }
  kv_del_locked-IsWellFormed (some key) = record {
    idle = refl;
    whole = put_back-IsWhole disk _ (hash_table_rm-IsSized c (rows_of disk) torn h key);
  }

-- A call goes no further than `opened`, or acts on the handle that it gives.
abbrev Acts : Env → Store → (KvFile → Option Table → Store) → Store → Type 0
Acts env s act s' =
    (s' ≡ opened env s)
    ⊎ ((f : KvFile) × ((opened env s).file ≡ some f) × (s' ≡ act f (opened env s).disk))

kv_call_cases :
    (call : KvCall) (s : Store)
    → Acts
        (env_of call)
        s
        (elim call [
          | set_call env key value len ↦ λ f disk. (kv_set_locked env.calls f disk key value len).1
          | get_call env key value len ↦ λ f disk. (kv_get_locked env.calls f disk key value len).1
          | del_call env key ↦ λ f disk. (kv_del_locked env.calls f disk key).1
        ])
        (kv_call call s)
unfolding kv_call kv_set kv_get kv_del
kv_call_cases (set_call env key value len) s = elim (Option-cases (opened env s).file) [
  | inl e ↦
      inl (rw (kv_call, kv_set, e) (ap (λ o. record { file = o; disk = (opened env s).disk }) e))
  | inr (f, e) ↦ inr (f, e, rw (kv_call, kv_set, e) refl)
]
kv_call_cases (get_call env key value len) s = elim (Option-cases (opened env s).file) [
  | inl e ↦
      inl (rw (kv_call, kv_get, e) (ap (λ o. record { file = o; disk = (opened env s).disk }) e))
  | inr (f, e) ↦ inr (f, e, rw (kv_call, kv_get, e) refl)
]
kv_call_cases (del_call env key) s = elim (Option-cases (opened env s).file) [
  | inl e ↦
      inl (rw (kv_call, kv_del, e) (ap (λ o. record { file = o; disk = (opened env s).disk }) e))
  | inr (f, e) ↦ inr (f, e, rw (kv_call, kv_del, e) refl)
]

Acts-IsWellFormed :
    (env : Env) (s s' : Store) (act : KvFile → Option Table → Store)
    → IsWellFormed s
    → ((f : KvFile) (disk : Option Table)
        → IsWhole disk
        → f.locked ≡ false
        → IsWellFormed (act f disk))
    → Acts env s act s'
    → IsWellFormed s'
Acts-IsWellFormed env s s' act h keeps acts =
    let o = opened-IsWellFormed env s h in
    elim acts [
      | inl same ↦ subst IsWellFormed (sym same) o
      | inr (f, e, acted) ↦
          let idle : f.locked ≡ false = subst IsIdle e o.idle in
          subst IsWellFormed (sym acted) (keeps f (opened env s).disk o.whole idle)
    ]

kv_call-IsWellFormed :
    (call : KvCall) (s : Store)
    → IsSized (env_of call).calls.torn
    → IsWellFormed s
    → IsWellFormed (kv_call call s)
kv_call-IsWellFormed (set_call env key value len) s torn h =
    Acts-IsWellFormed env s _ _ h
      (λ f disk w i. kv_set_locked-IsWellFormed env.calls f disk torn w i key value len)
      (kv_call_cases (set_call env key value len) s)
kv_call-IsWellFormed (get_call env key value len) s torn h =
    Acts-IsWellFormed env s _ _ h
      (λ f disk w i. kv_get_locked-IsWellFormed env.calls f disk torn w i key value len)
      (kv_call_cases (get_call env key value len) s)
kv_call-IsWellFormed (del_call env key) s torn h =
    Acts-IsWellFormed env s _ _ h
      (λ f disk w i. kv_del_locked-IsWellFormed env.calls f disk torn w i key)
      (kv_call_cases (del_call env key) s)

-- Behind any sequence of `HAL_Kv_Set`, `HAL_Kv_Get` and `kv_del`, with whatever arguments and failing calls,
-- the lock is free again and every value in the file has its 512 bytes, provided that it was so before and
-- that an incomplete write leaves whole arrays in its row.
pub kv_calls-IsWellFormed :
    (calls : List KvCall) (s : Store)
    → All (λ call. IsSized (env_of call).calls.torn) calls
    → IsWellFormed s
    → IsWellFormed (kv_calls calls s)
unfolding kv_calls
kv_calls-IsWellFormed [] s torn h = h
kv_calls-IsWellFormed (call ∷ calls) s torn h =
    kv_calls-IsWellFormed calls (kv_call call s) torn.1 (kv_call-IsWellFormed call s torn.0 h)
