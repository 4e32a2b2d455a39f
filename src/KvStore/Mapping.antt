-- ===== src/KvStore/Mapping.antt =====
-- `HAL_Kv_Set` and `HAL_Kv_Get` as a map from keys to values.
use clink3_wiki.Prelude.{
  ℕ, ◌<◌, ◌≡◌, refl, ap, ◌∙◌, sym, subst, List, [], true, false, Option, none, some, inl, inr,
  Bool-cases, Option-cases, le→ltb, ◌&&◌, ◌||◌, not, ◌==◌,
}
use clink3_wiki.Prelude.Int.{pos}
use clink3_wiki.KvStore.Row.{hash_gen}
use clink3_wiki.KvStore.File.{
  Table, Calls, FileCalls, not_found, reaches, read_kv_item, hash_table_get,
}
use clink3_wiki.KvStore.RoundTrip.{CanRead}
use clink3_wiki.KvStore.Contents.{Bindings, lookup, answer, hash_table_get-lookup}
use clink3_wiki.KvStore.Handle.{KvFile, Store, Env, kv_open, opened, kv_get_locked, kv_get}
use clink3_wiki.KvStore.Served.{WholeWrites, Served, Holds, opened-Holds, Served-Holds}

-- No handle although there is memory for one: there is no file.
no_handle :
    (env : Env) (s : Store) → env.handle_ok ≡ true → (opened env s).file ≡ none → s.disk ≡ none
unfolding opened kv_open
no_handle env s rich absent = elim (Option-cases s.file) [
  | inr (f, present) ↦
      let null : s.file ≡ none = rw (opened, present) at absent in cc (null, present)
  | inl null ↦ elim (Option-cases s.disk) [
    | inl gone ↦ gone
    | inr (table, there) ↦
        let both : ◌≡◌ {A = Option KvFile} (some (record { locked = false })) none =
          rw (opened, kv_open, null, there, rich) at absent in
        cc both
  ]
]

read_nothing : (c : FileCalls) (i : ℕ) → read_kv_item c [] i ≡ none
unfolding read_kv_item
read_nothing c i = elim (Bool-cases (reaches c [] i && c.transfer_ok)) [
  | inl t ↦ rw t refl
  | inr f ↦ rw f refl
]

get_nothing :
    (c : Calls) (key buf : List ℕ) (size : ℕ)
    → (hash_table_get c [] key buf (pos size)) ≡ not_found buf (pos size)
unfolding hash_table_get
get_nothing c key buf size = elim (Bool-cases (size == 0 || not c.malloc_ok)) [
  | inl bad ↦ rw bad refl
  | inr good ↦ rw (good, read_nothing c.reading (hash_gen key)) refl
]

locked_get-lookup :
    (c : Calls) (f : KvFile) (disk : Option Table) (m : Bindings) (key buf : List ℕ) (size : ℕ)
    → Holds disk m
    → CanRead c
    → 0 < size
    → (kv_get_locked c f disk (some key) (some buf) (pos size)).0 ≡ answer buf size (lookup m key)
unfolding kv_get_locked Holds answer lookup
locked_get-lookup c f none m key buf size h ok big =
    rw (le→ltb size 1 big)
      (get_nothing c key buf size ∙ ap (λ n. answer buf size (lookup n key)) (sym h))
locked_get-lookup c f (some table) m key buf size h ok big =
    rw (le→ltb size 1 big) (hash_table_get-lookup h c key buf size ok big)

-- From the first call on a device without a file, behind any sequence of `HAL_Kv_Set` and `HAL_Kv_Get`: a
-- `HAL_Kv_Get` whose calls succeed returns the value of the last set of its key that returned 0, cut to
-- 512 bytes and to the buffer of the caller, and -1 for a key without one. The keys set have at most
-- 127 characters; a file that is created gets all its rows, and no write stops in the middle of one.
pub kv_get-lookup :
    {s : Store} {m : Bindings}
    → Served s m
    → (env : Env) (key buf : List ℕ) (size : ℕ) → env.handle_ok ≡ true
    → WholeWrites env
    → CanRead env.calls
    → 0 < size
    → (kv_get env s (some key) (some buf) (pos size)).0 ≡ answer buf size (lookup m key)
unfolding kv_get answer lookup
kv_get-lookup {s} {m} served env key buf size rich whole ok big =
    let held = Served-Holds served in
    elim (Option-cases (opened env s).file) [
      | inl absent ↦
          let gone : s.disk ≡ none = no_handle env s rich absent in
          let empty : m ≡ [] = unfold Holds in subst (λ d. Holds d m) gone held in
          rw (kv_get, absent) (ap (λ n. answer buf size (lookup n key)) (sym empty))
      | inr (f, present) ↦
          rw (kv_get, present)
            (locked_get-lookup env.calls f (opened env s).disk m key buf size
              (opened-Holds env s m whole.creates held) ok big)
    ]
