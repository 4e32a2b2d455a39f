-- ===== src/Os/Opening.antt =====
-- The identity of the device, from the HAL functions to the structure with which the example opens it.
use clink3_wiki.Prelude.{
  ℕ, ◌+◌, ◌≤◌, ◌≡◌, inl, inr, Bool, true, ◌&&◌, ltb, Bool-cases, refl, sym, ap, ◌∙◌, List, [], ◌∷◌,
  ◌++◌, append-nil, take, take-append, drop, length, length-replicate, replicate, arith,
}
use clink3_wiki.Prelude.Buffer.{IsText, Holds, memcpy-start, memcpy-Holds, strlen, strlen-Holds}
use clink3_wiki.Os.Identity.{
  product_key_text, product_secret_text, device_name_text, device_secret_text, stored_text,
  get_device_name, get_device_secret, get_product_key, get_product_secret, memset_zero,
}
use clink3_wiki.Example.Main.{MetaInfo, fill_field, fill_meta_info}

memset_zeroed :
    (size : ℕ) (buf : List ℕ) → length buf ≡ size → memset_zero buf size ≡ replicate size 0
memset_zeroed size buf h =
    memcpy-start buf (replicate size 0) (omega (arith, h, length-replicate {A = ℕ} size 0))
    ∙ ap (λ n. replicate size 0 ++ drop n buf) (length-replicate {A = ℕ} size 0 ∙ sym h)
    ∙ ap (λ t. replicate size 0 ++ t) (drop_whole buf)
    ∙ append-nil (replicate size 0)
  where
    drop_whole : (t : List ℕ) → drop (length t) t ≡ []
    drop_whole [] = refl
    drop_whole (c ∷ t) = drop_whole t

empty-Holds : (room : ℕ) {buf : List ℕ} → buf ≡ replicate room 0 → Holds room [] buf
empty-Holds room {buf} e = (e ∙ ap (λ n. replicate n 0) (omega arith), omega arith)

stored_text-Holds :
    (text : List ℕ) (max : ℕ) (buf : List ℕ)
    → length buf ≡ max + 1
    → length text ≤ max
    → Holds (max + 1) text (stored_text text max buf)
unfolding stored_text
stored_text-Holds text max buf size fits =
    let zeros : memset_zero buf (max + 1) ≡ replicate (max + 1) 0 =
      memset_zeroed (max + 1) buf size in
    let all : take (length text) (text ++ replicate (length text) 0) ≡ text =
      take-append (length text) text (replicate (length text) 0) refl in
    rw all (
      memcpy-Holds (max + 1) [] {buf = memset_zero buf (max + 1)} text (empty-Holds (max + 1) zeros)
        (omega (arith, fits)))

fill_field-Holds :
    (room size : ℕ) (text : List ℕ) {array : List ℕ}
    → IsText text
    → Holds size text array
    → length text ≤ room
    → Holds room text (fill_field (replicate room 0) array)
fill_field-Holds room size text {array} t h fits =
    let all : take (strlen array) array ≡ text =
      ap (λ n. take n array) (strlen-Holds size text t h)
      ∙ ap (take (length text)) h.0
      ∙ take-append (length text) text _ refl in
    rw all (
      memcpy-Holds room [] {buf = replicate room 0} text (empty-Holds room refl)
        (omega (arith, fits)))

-- A decision of `IsText`
abbrev all_nonzero : List ℕ → Bool
all_nonzero [] = true
all_nonzero (c ∷ s) = ltb 0 c && all_nonzero s

nonzero-IsText : (s : List ℕ) → all_nonzero s ≡ true → IsText s
nonzero-IsText [] h = tt
nonzero-IsText (c ∷ s) h = elim (Bool-cases (ltb 0 c)) [
  | inl positive ↦ (ground (arith, positive), nonzero-IsText s (rw positive at h))
  | inr zero ↦ cc (rw zero at h)
]

-- The sizes of the four arrays, without their last zero
pub record Sizes : Type 0 where
  pub product_key : ℕ
  pub product_secret : ℕ
  pub device_name : ℕ
  pub device_secret : ℕ

-- The texts fit.
abbrev pub Enough : Sizes → Type 0
Enough sizes =
    (11 ≤ sizes.product_key)
    × (16 ≤ sizes.product_secret)
    × (13 ≤ sizes.device_name)
    × (32 ≤ sizes.device_secret)

-- The four arrays of the example behind the calls of the HAL functions in `main`
unfoldable pub identity : Sizes → MetaInfo
unfolding get_product_key get_product_secret get_device_name get_device_secret
identity sizes = record {
  product_key = (get_product_key sizes.product_key (replicate (sizes.product_key + 1) 0)).1;
  product_secret =
      (get_product_secret sizes.product_secret (replicate (sizes.product_secret + 1) 0)).1;
  device_name = (get_device_name sizes.device_name (replicate (sizes.device_name + 1) 0)).1;
  device_secret = (get_device_secret sizes.device_secret (replicate (sizes.device_secret + 1) 0)).1;
}

-- A structure that `memset` cleared, with fields of the sizes
abbrev pub zeroed : Sizes → MetaInfo
zeroed fields = record {
  product_key = replicate fields.product_key 0;
  product_secret = replicate fields.product_secret 0;
  device_name = replicate fields.device_name 0;
  device_secret = replicate fields.device_secret 0;
}

field-Holds :
    (text : List ℕ) (max room : ℕ)
    → all_nonzero text ≡ true
    → length text ≤ max
    → length text ≤ room
    → Holds room text (fill_field (replicate room 0) (stored_text text max (replicate (max + 1) 0)))
field-Holds text max room t small fits =
    fill_field-Holds room (max + 1) text (nonzero-IsText text t)
      (stored_text-Holds text max (replicate (max + 1) 0) (length-replicate {A = ℕ} (max + 1) 0)
        small)
      fits

-- When the arrays of the HAL functions and the fields of the structure have room for the texts, `main`
-- opens the device with exactly the product key, product secret, device name and device secret of the
-- porting layer, each followed by zeros to the end of its field.
pub fill_meta_info-identity :
    (arrays fields : Sizes)
    → Enough arrays
    → Enough fields
    → Holds fields.product_key product_key_text
        (fill_meta_info (zeroed fields) (identity arrays)).product_key
      × Holds fields.product_secret product_secret_text
          (fill_meta_info (zeroed fields) (identity arrays)).product_secret
      × Holds fields.device_name device_name_text
          (fill_meta_info (zeroed fields) (identity arrays)).device_name
      × Holds fields.device_secret device_secret_text
          (fill_meta_info (zeroed fields) (identity arrays)).device_secret
unfolding fill_meta_info identity get_product_key get_product_secret get_device_name
    get_device_secret
fill_meta_info-identity arrays fields small fits = (
  field-Holds product_key_text arrays.product_key fields.product_key refl small.0 fits.0,
  field-Holds product_secret_text arrays.product_secret fields.product_secret refl small.1 fits.1,
  field-Holds device_name_text arrays.device_name fields.device_name refl small.2 fits.2,
  field-Holds device_secret_text arrays.device_secret fields.device_secret refl small.3 fits.3,
)
