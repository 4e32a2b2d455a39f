-- ===== src/KvStore/Served.antt =====
-- What `HAL_Kv_Set` and `HAL_Kv_Get` leave in the file, from the first call on a device without one.
use clink3_wiki.Prelude.{
  ℕ, ◌≤◌, ◌≡◌, refl, ap, sym, subst, List, [], ◌∷◌, true, Option, none, some, if◌then◌else◌, arith,
  take, length, min, inl, inr, Bool-cases, Option-cases,
}
use clink3_wiki.Prelude.Int.{ℤ, pos, negsuc, not_positive, is_zero}
use clink3_wiki.KvStore.Row.{table_col_size}
use clink3_wiki.KvStore.File.{Table, Calls, create_hash_file, hash_table_put}
use clink3_wiki.KvStore.Files.{create_loop_done, hash_table_put_done}
use clink3_wiki.KvStore.Contents.{Bindings, Stores, created, put, refused}
use clink3_wiki.KvStore.Handle.{
  KvFile, Store, Env, kv_open, opened, rows_of, put_back, kv_set_locked, kv_get_locked, kv_set,
  kv_get,
}

-- A set binds its key when it returns 0.
abbrev pub bound : ℤ → List ℕ → List ℕ → Bindings → Bindings
bound ret key v m = if is_zero ret then (key, v) ∷ m else m

-- A new file gets all of its rows, and no write stops in the middle of a row.
pub record WholeWrites (env : Env) : Type 0 where
  pub creates : 384 ≤ env.calls.rows_ok
  pub writes : env.calls.writing.transfer_ok ≡ true

-- The store behind sets and gets on a device without a file, with the bindings that it should have.
-- The keys that are set have at most 127 characters, and the bytes are there.
pub data Served : Store → Bindings → Type 0 where
  untouched : Served (record { file = none; disk = none }) []
  served_set :
      {s : Store} {m : Bindings} (env : Env) (key value : List ℕ) (len : ℕ)
      → Served s m
      → WholeWrites env
      → length key ≤ 127
      → len ≤ length value
      → Served (kv_set env s (some key) (some value) (pos len)).1 (
          bound (kv_set env s (some key) (some value) (pos len)).0 key (take (min len 512) value) m)
  served_get :
      {s : Store} {m : Bindings} (env : Env) (key value : Option (List ℕ)) (len : ℤ)
      → Served s m
      → WholeWrites env
      → Served (kv_get env s key value len).1 m

-- The file on disk has the bindings.
unfoldable pub Holds : Option Table → Bindings → Type 0
Holds none m = m ≡ []
Holds (some table) m = Stores table m

create-Holds : (c : Calls) → 384 ≤ c.rows_ok → Holds (create_hash_file c).0 []
unfolding create_hash_file Holds
create-Holds c all = elim (Bool-cases c.create_ok) [
  | inl ok ↦ rw (create_loop_done table_col_size c.rows_ok all, ok) created
  | inr fails ↦ rw fails refl
]

kv_open-Holds :
    (env : Env) (disk : Option Table) (m : Bindings)
    → 384 ≤ env.calls.rows_ok
    → Holds disk m
    → Holds (kv_open env disk).1 m
unfolding kv_open Holds
kv_open-Holds env none m all h = elim (Bool-cases env.handle_ok) [
  | inr poor ↦ rw poor h
  | inl rich ↦
      let made : Holds (create_hash_file env.calls).0 m =
        subst (Holds (create_hash_file env.calls).0) (sym h) (create-Holds env.calls all) in
      elim (Bool-cases (create_hash_file env.calls).1) [
        | inl done ↦ rw (rich, done) made
        | inr failed ↦ rw (rich, failed) made
      ]
]
kv_open-Holds env (some table) m all h = elim (Bool-cases env.handle_ok) [
  | inr poor ↦ rw poor h
  | inl rich ↦ rw rich h
]

pub opened-Holds :
    (env : Env) (s : Store) (m : Bindings)
    → 384 ≤ env.calls.rows_ok
    → Holds s.disk m
    → Holds (opened env s).disk m
unfolding opened
opened-Holds env s m all h = elim (Option-cases s.file) [
  | inr (f, present) ↦ rw present h
  | inl absent ↦ rw absent (kv_open-Holds env s.disk m all h)
]

is_zero-true : (z : ℤ) → is_zero z ≡ true → z ≡ pos 0
is_zero-true (pos n) e = let h : n ≡ 0 = ground (arith, e) in ap pos h
is_zero-true (negsuc n) e = cc

-- A put into the file, with what it binds
put-Holds :
    (c : Calls) (disk : Option Table) (key value : List ℕ) (len : ℕ) (m : Bindings)
    → Holds disk m
    → c.writing.transfer_ok ≡ true
    → length key ≤ 127
    → len ≤ length value
    → Holds (put_back disk (hash_table_put c (rows_of disk) key value (pos len)).1) (
        bound
          (hash_table_put c (rows_of disk) key value (pos len)).0
          key
          (take (min len 512) value)
          m)
unfolding Holds
put-Holds c none key value len m h whole short enough =
    elim (Bool-cases (is_zero (hash_table_put c [] key value (pos len)).0)) [
      | inr failed ↦ rw failed h
      | inl done ↦
          let (row, row', positive, before, stored, written) =
            hash_table_put_done c [] key value len (is_zero-true _ done) in
          absurd (cc before)
    ]
put-Holds c (some table) key value len m h whole short enough =
    elim (Bool-cases (is_zero (hash_table_put c table key value (pos len)).0)) [
      | inr failed ↦ rw failed (
          refused c key value len h whole (λ e.
            let z : is_zero (hash_table_put c table key value (pos len)).0 ≡ true = rw e refl in
            cc))
      | inl done ↦ rw done (put c key value len h short enough (is_zero-true _ done))
    ]

set_locked-Holds :
    (c : Calls) (f : KvFile) (disk : Option Table) (key value : List ℕ) (len : ℕ) (m : Bindings)
    → Holds disk m
    → c.writing.transfer_ok ≡ true
    → length key ≤ 127
    → len ≤ length value
    → Holds (kv_set_locked c f disk (some key) (some value) (pos len)).1.disk (
        bound
          (kv_set_locked c f disk (some key) (some value) (pos len)).0
          key
          (take (min len 512) value)
          m)
unfolding kv_set_locked
set_locked-Holds c f disk key value len m h whole short enough =
    elim (Bool-cases (not_positive (pos len))) [
      | inl bad ↦ rw bad h
      | inr good ↦ rw good (put-Holds c disk key value len m h whole short enough)
    ]

kv_set-Holds :
    (env : Env) (s : Store) (key value : List ℕ) (len : ℕ) (m : Bindings)
    → Holds (opened env s).disk m
    → env.calls.writing.transfer_ok ≡ true
    → length key ≤ 127
    → len ≤ length value
    → Holds
        (kv_set env s (some key) (some value) (pos len)).1.disk
        (bound (kv_set env s (some key) (some value) (pos len)).0 key (take (min len 512) value) m)
unfolding kv_set
kv_set-Holds env s key value len m h whole short enough = elim (Option-cases (opened env s).file) [
  | inl absent ↦ rw (kv_set, absent) h
  | inr (f, present) ↦
      rw (kv_set, present)
        (set_locked-Holds env.calls f (opened env s).disk key value len m h whole short enough)
]

get_locked-disk :
    (c : Calls) (f : KvFile) (disk : Option Table) (key value : Option (List ℕ)) (len : ℤ)
    → (kv_get_locked c f disk key value len).1.disk ≡ disk
unfolding kv_get_locked
get_locked-disk c f disk none value len = refl
get_locked-disk c f disk (some key) none len = refl
get_locked-disk c f disk (some key) (some value) len = elim (Bool-cases (not_positive len)) [
  | inl bad ↦ rw bad refl
  | inr good ↦ rw good refl
]

kv_get-disk :
    (env : Env) (s : Store) (key value : Option (List ℕ)) (len : ℤ)
    → (kv_get env s key value len).1.disk ≡ (opened env s).disk
unfolding kv_get
kv_get-disk env s key value len = elim (Option-cases (opened env s).file) [
  | inl absent ↦ rw (kv_get, absent) refl
  | inr (f, present) ↦
      rw (kv_get, present) (get_locked-disk env.calls f (opened env s).disk key value len)
]

pub Served-Holds : {s : Store} {m : Bindings} → Served s m → Holds s.disk m
Served-Holds untouched = unfold Holds in refl
Served-Holds (served_set {s} {m} env key value len before ok short enough) =
    kv_set-Holds env s key value len m (opened-Holds env s m ok.creates (Served-Holds before))
      ok.writes short enough
Served-Holds (served_get {s} {m} env key value len before ok) =
    subst (λ d. Holds d m) (sym (kv_get-disk env s key value len))
      (opened-Holds env s m ok.creates (Served-Holds before))
