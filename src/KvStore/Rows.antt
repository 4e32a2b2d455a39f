-- ===== src/KvStore/Rows.antt =====
-- What a row of the table promises: the last value stored under a key is found, no other key is
-- touched, and the used items stay in front.
use clink3_wiki.Prelude.{
  ℕ, ◌≤◌, ◌<◌, ◌≡◌, ◌≢◌, ◌↔◌, inl, inr, refl, ap, ◌∙◌, sym, subst, List, [], ◌∷◌, true, none, some,
  ◌==◌, if◌then◌else◌, arith, take, take_all, take-append, length, length-take, replicate,
  length-replicate, Bool-cases, Option-cases, All,
}
use mathlib.Core.Option.{some-injective}
use clink3_wiki.Prelude.Buffer.{memcpy, memcpy-start, length-memcpy}
use clink3_wiki.KvStore.Row.{Item, strcmp_eq, put_row, get_row, fill, overwrite}

pub strcmp_eq_iff : (s t : List ℕ) → (strcmp_eq s t ≡ true) ↔ (s ≡ t)
unfolding strcmp_eq
strcmp_eq_iff [] [] = (λ e. refl, λ e. refl)
strcmp_eq_iff [] (d ∷ t) = (λ e. cc, λ e. cc)
strcmp_eq_iff (c ∷ s) [] = (λ e. cc, λ e. cc)
strcmp_eq_iff (c ∷ s) (d ∷ t) =
    (λ e. ground (arith, strcmp_eq_iff s t), λ e. ground (arith, strcmp_eq_iff s t))

-- The value that a key has in a row: the first `value_len` bytes of its item
unfoldable pub value_of : Item → List ℕ
value_of p = take p.value_len p.value

-- The used items of a row stand in front of the free ones.
abbrev pub IsPacked : List Item → Type 0
IsPacked [] = Unit
IsPacked (p ∷ row) = ((p.value_len ≡ 0) → All (λ q. q.value_len ≡ 0) row) × IsPacked row

-- Every item has the 512 bytes of its array.
abbrev pub IsSized : List Item → Type 0
IsSized = All (λ p. length p.value ≡ 512)

prefix_of_copy :
    (n : ℕ) (old value : List ℕ)
    → length old ≡ 512
    → n ≤ 512
    → n ≤ length value
    → take n (memcpy old 0 (take n value)) ≡ take n value
prefix_of_copy n old value size small fits =
    ap (take n) (memcpy-start old (take n value) (omega (arith, length-take n value)))
    ∙ take-append n (take n value) _ (omega (arith, length-take n value))

strcmp_eq_self : (s : List ℕ) → strcmp_eq s s ≡ true
strcmp_eq_self s = (strcmp_eq_iff s s).1 refl

value_of-fill :
    (p : Item) (key value : List ℕ) (n : ℕ)
    → length p.value ≡ 512
    → n ≤ 512
    → n ≤ length value
    → value_of (fill p key value n) ≡ take n value
unfolding value_of fill
value_of-fill p key value n size small fits = prefix_of_copy n p.value value size small fits

value_of-overwrite :
    (p : Item) (value : List ℕ) (n : ℕ)
    → n ≤ 512
    → n ≤ length value
    → value_of (overwrite p value n) ≡ take n value
unfolding value_of overwrite
value_of-overwrite p value n small fits =
    prefix_of_copy n (replicate 512 0) value (length-replicate {A = ℕ} 512 0) small fits

-- How a successful put changed the row
pub data Put (key value : List ℕ) (n : ℕ) : List Item → List Item → Type 0 where
  filled :
      (p : Item) (row : List Item)
      → p.value_len ≡ 0
      → Put key value n (p ∷ row) (fill p key value n ∷ row)
  updated :
      (p : Item) (row : List Item)
      → p.value_len ≢ 0
      → p.key ≡ key
      → Put key value n (p ∷ row) (overwrite p value n ∷ row)
  passed :
      (p : Item) {row row' : List Item}
      → p.value_len ≢ 0
      → p.key ≢ key
      → Put key value n row row'
      → Put key value n (p ∷ row) (p ∷ row')

pub put_row-Put :
    (row : List Item) (key value : List ℕ) (n : ℕ) {row' : List Item}
    → put_row row key value n ≡ some row'
    → Put key value n row row'
unfolding put_row
put_row-Put [] key value n e = cc
put_row-Put (p ∷ row) key value n {row'} e = elim (Bool-cases (p.value_len == 0)) [
  | inl unused ↦
      subst (Put key value n (p ∷ row)) (some-injective _ _ (rw unused at e))
        (filled p row (ground arith))
  | inr used ↦ elim (Bool-cases (strcmp_eq p.key key)) [
    | inl same ↦
        subst (Put key value n (p ∷ row)) (some-injective _ _ (rw (used, same) at e))
          (updated p row (ground arith) ((strcmp_eq_iff p.key key).0 same))
    | inr other ↦ elim (Option-cases (put_row row key value n)) [
      | inl full ↦ let h : none ≡ some row' = rw (used, other, full) at e in cc h
      | inr (r, put) ↦
          subst (Put key value n (p ∷ row)) (some-injective _ _ (rw (used, other, put) at e)) (
            passed p (ground arith) (λ same. cc ((strcmp_eq_iff p.key key).1 same))
              (put_row-Put row key value n put))
    ]
  ]
]

Put-get_row :
    (key value : List ℕ) (n : ℕ) {row row' : List Item}
    → length key ≤ 127
    → 0 < n
    → n ≤ 512
    → n ≤ length value
    → IsSized row
    → Put key value n row row'
    → (p : Item) × (get_row row' key ≡ some p) × (p.value_len ≡ n) × (value_of p ≡ take n value)
unfolding get_row fill overwrite
Put-get_row key value n hk pos hn hv hs (filled p row unused) = (
  fill p key value n,
  ground (arith, take_all 127 key hk, strcmp_eq_self key),
  refl,
  value_of-fill p key value n hs.0 hn hv,
)
Put-get_row key value n hk pos hn hv hs (updated p row used same) = (
  overwrite p value n,
  ground (arith, strcmp_eq_iff key p.key),
  refl,
  value_of-overwrite p value n hn hv,
)
Put-get_row key value n hk pos hn hv hs (passed p used other put) =
    let (q, found, size, kept) = Put-get_row key value n hk pos hn hv hs.1 put in
    (q, ground (arith, strcmp_eq_iff key p.key), size, kept)

-- After a successful put the row gives the stored bytes back, for a key that fits its array.
pub put_row-get_row :
    (row : List Item) (key value : List ℕ) (n : ℕ) {row' : List Item}
    → length key ≤ 127
    → 0 < n
    → n ≤ 512
    → n ≤ length value
    → IsSized row
    → put_row row key value n ≡ some row'
    → (p : Item) × (get_row row' key ≡ some p) × (p.value_len ≡ n) × (value_of p ≡ take n value)
put_row-get_row row key value n hk pos hn hv hs e =
    Put-get_row key value n hk pos hn hv hs (put_row-Put row key value n e)

-- An item with another key hides nothing that is not there.
pub get_row-none :
    (p : Item) (row : List Item) (k : List ℕ)
    → k ≢ p.key
    → get_row row k ≡ none
    → get_row (p ∷ row) k ≡ none
unfolding get_row
get_row-none p row k ne h = ground (arith, strcmp_eq_iff k p.key)

pub get_row-free :
    (p : Item) (row : List Item) (k : List ℕ) → p.value_len ≡ 0 → get_row (p ∷ row) k ≡ none
unfolding get_row
get_row-free p row k h = ground arith

pub get_row-unused :
    (row : List Item) (k : List ℕ) → All (λ q. q.value_len ≡ 0) row → get_row row k ≡ none
unfolding get_row
get_row-unused [] k h = refl
get_row-unused (p ∷ row) k h = ground arith

-- What stands first in a row keeps an equation between the rests.
get_row-cons :
    (p : Item) (row row' : List Item) (k : List ℕ)
    → get_row row k ≡ get_row row' k
    → get_row (p ∷ row) k ≡ get_row (p ∷ row') k
unfolding get_row
get_row-cons p row row' k same =
    ap (λ r. if p.value_len == 0 then none else (if strcmp_eq k p.key then some p else r)) same

get_row-skip :
    (p : Item) (row : List Item) (k : List ℕ)
    → p.value_len ≢ 0
    → k ≢ p.key
    → get_row (p ∷ row) k ≡ get_row row k
unfolding get_row
get_row-skip p row k used other = ground (arith, strcmp_eq_iff k p.key)

Put-get_row_other :
    (key value k : List ℕ) (n : ℕ) {row row' : List Item}
    → length key ≤ 127
    → 0 < n
    → k ≢ key
    → IsPacked row
    → Put key value n row row'
    → get_row row' k ≡ get_row row k
unfolding get_row
Put-get_row_other key value k n hk pos ne hp (filled p row unused) =
    get_row-none (fill p key value n) row k (unfold fill in λ e. ne (e ∙ take_all 127 key hk))
      (get_row-unused row k (hp.0 unused))
    ∙ sym (get_row-free p row k unused)
Put-get_row_other key value k n hk pos ne hp (updated p row used same) =
    let other : k ≢ p.key = λ e. ne (e ∙ same) in
    unfold overwrite in
    (get_row-skip (overwrite p value n) row k (omega (arith, pos)) other
      ∙ sym (get_row-skip p row k used other))
Put-get_row_other key value k n hk pos ne hp (passed p {row = r} {row' = r'} used other put) =
    get_row-cons p r' r k (Put-get_row_other key value k n hk pos ne hp.1 put)

-- A successful put changes what is found under no other key, in a packed row.
pub put_row-get_row_other :
    (row : List Item) (key value k : List ℕ) (n : ℕ) {row' : List Item}
    → length key ≤ 127
    → 0 < n
    → k ≢ key
    → IsPacked row
    → put_row row key value n ≡ some row'
    → get_row row' k ≡ get_row row k
put_row-get_row_other row key value k n hk pos ne hp e =
    Put-get_row_other key value k n hk pos ne hp (put_row-Put row key value n e)

unused_before :
    (key value : List ℕ) (n : ℕ) {row row' : List Item}
    → 0 < n
    → Put key value n row row'
    → All (λ q. q.value_len ≡ 0) row'
    → ⊥
unused_before key value n pos (filled p row unused) h = unfold fill in omega arith
unused_before key value n pos (updated p row used same) h = unfold overwrite in omega arith
unused_before key value n pos (passed p used other put) h = used h.0

Put-IsPacked :
    (key value : List ℕ) (n : ℕ) {row row' : List Item}
    → 0 < n
    → Put key value n row row'
    → IsPacked row
    → IsPacked row'
Put-IsPacked key value n pos (filled p row unused) h =
    (λ zero_length. absurd (unfold fill in omega (arith, zero_length)), h.1)
Put-IsPacked key value n pos (updated p row used same) h =
    (λ zero_length. absurd (unfold overwrite in omega (arith, zero_length)), h.1)
Put-IsPacked key value n pos (passed p used other put) h =
    (λ zero_length. absurd (used zero_length), Put-IsPacked key value n pos put h.1)

Put-IsSized :
    (key value : List ℕ) (n : ℕ) {row row' : List Item}
    → Put key value n row row'
    → IsSized row
    → IsSized row'
Put-IsSized key value n (filled p row unused) h =
    (unfold fill in length-memcpy p.value 0 (take n value) ∙ h.0, h.1)
Put-IsSized key value n (updated p row used same) h = (
  unfold overwrite in
      length-memcpy (replicate 512 0) 0 (take n value) ∙ length-replicate {A = ℕ} 512 0,
  h.1,
)
Put-IsSized key value n (passed p used other put) h = (h.0, Put-IsSized key value n put h.1)

-- A successful put keeps the row packed and its arrays whole.
pub put_row-IsPacked :
    (row : List Item) (key value : List ℕ) (n : ℕ) {row' : List Item}
    → 0 < n
    → put_row row key value n ≡ some row'
    → IsPacked row
    → IsSized row
    → IsPacked row' × IsSized row'
put_row-IsPacked row key value n pos e hp hs =
    let put = put_row-Put row key value n e in
    (Put-IsPacked key value n pos put hp, Put-IsSized key value n put hs)

-- A put keeps the arrays of a row whole.
pub put_row-IsSized :
    (row : List Item) (key value : List ℕ) (n : ℕ) {row' : List Item}
    → put_row row key value n ≡ some row'
    → IsSized row
    → IsSized row'
put_row-IsSized row key value n e hs = Put-IsSized key value n (put_row-Put row key value n e) hs
