-- ===== src/KvStore/Removal.antt =====
-- What removal from a row promises, and what it breaks.
use clink3_wiki.Prelude.{
  ℕ, ◌≤◌, ◌<◌, ◌≡◌, ◌≢◌, inl, inr, refl, sym, ap, List, [], ◌∷◌, ◌++◌, Option, none, some, arith,
  All, ◌==◌, false, Bool-cases, take, length, length-take,
}
use clink3_wiki.KvStore.Row.{Item, zero_item, put_row, get_row, rm_row, fill, strcmp_eq}
use clink3_wiki.Prelude.Buffer.{memcpy}
use clink3_wiki.KvStore.Rows.{strcmp_eq_iff}

-- A removed key is not found, whatever the row held.
pub rm_row-get_row : (row : List Item) (key : List ℕ) → get_row (rm_row row key) key ≡ none
unfolding rm_row get_row
rm_row-get_row [] key = refl
rm_row-get_row (p ∷ row) key = ground (arith, rm_row-get_row row key)

-- Removing the first of two keys of a full row makes the second one unreachable, although its item
-- is still in the row.
pub rm_row_hides :
    (p q : Item)
    → p.value_len ≢ 0
    → q.value_len ≢ 0
    → p.key ≢ q.key
    → (get_row (p ∷ q ∷ []) q.key ≡ some q)
      × (rm_row (p ∷ q ∷ []) p.key ≡ zero_item ∷ q ∷ [])
      × (get_row (rm_row (p ∷ q ∷ []) p.key) q.key ≡ none)
unfolding rm_row get_row
rm_row_hides p q hp hq ne = (
  ground (arith, strcmp_eq_iff q.key p.key, strcmp_eq_iff q.key q.key),
  ground (arith, strcmp_eq_iff p.key p.key, strcmp_eq_iff p.key q.key),
  ground (arith, strcmp_eq_iff p.key p.key, strcmp_eq_iff p.key q.key),
)

-- The array of a key has room for 127 characters.
abbrev pub IsStored : Item → Type 0
IsStored p = length p.key ≤ 127

abbrev pub IsUsed : Item → Type 0
IsUsed p = p.value_len ≢ 0

-- What putting a long key makes of a row: nothing when all of its items are used; else its first free item
-- gets the first 127 characters and the value, and the key is not found.
pub data LongPut (key value : List ℕ) (n : ℕ) : List Item → Option (List Item) → Type 0 where
  row_full : {row : List Item} → All IsUsed row → LongPut key value n row none
  cut :
      (used after : List Item) (p : Item)
      → All IsUsed used
      → p.value_len ≡ 0
      → get_row
          (used
            ++ record { key = take 127 key; value = memcpy p.value 0 (take n value); value_len = n }
              ∷ after)
          key
        ≡ none
      → LongPut key value n (used ++ p ∷ after) (
          some (
            used
            ++ record { key = take 127 key; value = memcpy p.value 0 (take n value); value_len = n }
              ∷ after))

stored_differs : (p : Item) (key : List ℕ) → IsStored p → 127 < length key → p.key ≢ key
stored_differs p key stored long e = absurd (omega (arith, stored, long, ap length e))

get_row_behind :
    (p : Item) (row : List Item) (key : List ℕ)
    → p.key ≢ key
    → get_row row key ≡ none
    → get_row (p ∷ row) key ≡ none
unfolding get_row
get_row_behind p row key other missing = elim (Bool-cases (strcmp_eq key p.key)) [
  | inl same ↦ absurd (other (sym ((strcmp_eq_iff key p.key).0 same)))
  | inr differ ↦ ground (arith, differ, missing)
]

get_row_long :
    (row : List Item) (key : List ℕ) → All IsStored row → 127 < length key → get_row row key ≡ none
get_row_long [] key stored long = unfold get_row in refl
get_row_long (p ∷ row) key stored long =
    get_row_behind p row key (stored_differs p key stored.0 long)
      (get_row_long row key stored.1 long)

-- The same behind a used item
behind_used :
    (key value : List ℕ) (n : ℕ) (p : Item) (row : List Item) (row' : Option (List Item))
    → IsUsed p
    → IsStored p
    → 127 < length key
    → LongPut key value n row row'
    → LongPut key value n (p ∷ row) (elim row' [ none ↦ none | some r ↦ some (p ∷ r) ])
behind_used key value n p _ _ used stored long (row_full all) = row_full (used, all)
behind_used key value n p _ _ used stored long (cut before after q all free missing) =
    cut (p ∷ before) after q (used, all) free
      (get_row_behind p _ key (stored_differs p key stored long) missing)

-- Putting a key of more than 127 characters into any row, whose stored keys have at most 127 as their
-- arrays do: when an item is free, the call succeeds, the first free one gets the first 127
-- characters and the value, and the key is not found then; when none is free, the row is full.
pub put_row-LongPut :
    (row : List Item) (key value : List ℕ) (n : ℕ)
    → All IsStored row
    → 127 < length key
    → LongPut key value n row (put_row row key value n)
unfolding put_row fill
put_row-LongPut [] key value n stored long = row_full tt
put_row-LongPut (p ∷ row) key value n stored long = elim (Bool-cases (p.value_len == 0)) [
  | inl free ↦ rw free (
      cut [] row p tt (ground (arith, free))
        (get_row_long _ key (omega (arith, length-take 127 key), stored.1) long))
  | inr used ↦
      let other : strcmp_eq p.key key ≡ false =
        ground (arith, strcmp_eq_iff p.key key, stored_differs p key stored.0 long) in
      rw (used, other)
        (behind_used key value n p row (put_row row key value n) (λ e. ground (arith, e, used))
          stored.0 long (put_row-LongPut row key value n stored.1 long))
]
