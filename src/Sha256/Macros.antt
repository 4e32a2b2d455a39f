-- ===== src/Sha256/Macros.antt =====
-- The word macros compute the functions of FIPS 180-4.
use Prim.Native.Nat.{bit_or, bit_xor}
use native.Mathlib.Nat.{
  mod-eq_of_lt, div-lt_iff_lt-mul, add-mul-mod_self_right, div-add-mod', mul-lt-mul_of_pos_right,
  mod-lt, one-le-pow,
}
use clink3_wiki.Prelude.{
  ℕ, zero, suc, [], ◌∷◌, ◌+◌, ◌-◌, ◌*◌, ◌/◌, ◌%◌, ◌^◌, ◌<◌, ◌≡◌, refl, ap, ap₂, ◌∙◌, sym, List,
  arith, All,
}
use clink3_wiki.Prelude.Words.{u32, IsWord, IsByte}
use clink3_wiki.Prelude.Bits.{
  bit_or_disjoint, bit_or_fields, bit_and_mask, choose_lem, majority_lem,
}
use clink3_wiki.Sha256.Word.{byte_at, get_uint32_be, shr, rotr, s0, s1, s2, s3, f0, f1}
use clink3_wiki.Sha256.Spec.{
  rot_right, ch, maj, upper_sigma0, upper_sigma1, lower_sigma0, lower_sigma1, block_word,
}

-- `x << k` cut to 32 bits, when 2 ^ n * 2 ^ k is 2 ^ 32
shifted_out : (x a b : ℕ) → 0 < a → 0 < b → x * b % (a * b) ≡ x % a * b
shifted_out x a b ha hb =
    ap (λ t. t % (a * b)) regroup
    ∙ add-mul-mod_self_right (x % a * b) (x / a) (a * b)
    ∙ mod-eq_of_lt (mul-lt-mul_of_pos_right (mod-lt x ha) hb)
  where
    regroup : x * b ≡ x % a * b + x / a * (a * b)
    regroup = omega (arith, ap (λ (t : ℕ). t * b) (div-add-mod' x a))

pub shr_lem : (x n : ℕ) → IsWord x → shr x n ≡ x / 2 ^ n
unfolding shr
shr_lem x n h = ap (λ t. t / 2 ^ n) (bit_and_mask 32 x ∙ mod-eq_of_lt h)

rotr_lem : (x n : ℕ) → 2 ^ n * 2 ^ (32 - n) ≡ 2 ^ 32 → IsWord x → rotr x n ≡ rot_right n x
unfolding rotr
rotr_lem x n e h =
    ap₂ bit_or (shr_lem x n h) cut
    ∙ bit_or_disjoint (32 - n) (x / 2 ^ n) (x % 2 ^ n)
        ((div-lt_iff_lt-mul (pos n)).1 (omega (arith, e)))
  where
    pos : (k : ℕ) → 0 < 2 ^ k
    pos k = one-le-pow k 2 (omega arith)

    cut : u32 (x * 2 ^ (32 - n)) ≡ x % 2 ^ n * 2 ^ (32 - n)
    cut =
        ap (λ t. x * 2 ^ (32 - n) % t) (sym e)
        ∙ shifted_out x (2 ^ n) (2 ^ (32 - n)) (pos n) (pos (32 - n))

xor_three :
    {a b c a' b' c' : ℕ}
    → a ≡ a'
    → b ≡ b'
    → c ≡ c'
    → bit_xor (bit_xor a b) c ≡ bit_xor (bit_xor a' b') c'
xor_three p q r = ap₂ bit_xor (ap₂ bit_xor p q) r

pub s0_lem : (x : ℕ) → IsWord x → s0 x ≡ lower_sigma0 x
unfolding s0
s0_lem x h = xor_three (rotr_lem x 7 refl h) (rotr_lem x 18 refl h) (shr_lem x 3 h)

pub s1_lem : (x : ℕ) → IsWord x → s1 x ≡ lower_sigma1 x
unfolding s1
s1_lem x h = xor_three (rotr_lem x 17 refl h) (rotr_lem x 19 refl h) (shr_lem x 10 h)

pub s2_lem : (x : ℕ) → IsWord x → s2 x ≡ upper_sigma0 x
unfolding s2
s2_lem x h = xor_three (rotr_lem x 2 refl h) (rotr_lem x 13 refl h) (rotr_lem x 22 refl h)

pub s3_lem : (x : ℕ) → IsWord x → s3 x ≡ upper_sigma1 x
unfolding s3
s3_lem x h = xor_three (rotr_lem x 6 refl h) (rotr_lem x 11 refl h) (rotr_lem x 25 refl h)

pub f0_lem : (x y z : ℕ) → f0 x y z ≡ maj x y z
unfolding f0
f0_lem = majority_lem

pub f1_lem : (x y z : ℕ) → IsWord x → IsWord z → f1 x y z ≡ ch x y z
unfolding f1
f1_lem x y z = choose_lem 32 x y z

pub byte_at-IsByte : (b : List ℕ) (i : ℕ) → All IsByte b → IsByte (byte_at b i)
byte_at-IsByte [] i h = omega arith
byte_at-IsByte (x ∷ b) zero h = h.0
byte_at-IsByte (x ∷ b) (suc i) h = byte_at-IsByte b i h.1

four_fields :
    (a b c d : ℕ)
    → IsByte a
    → IsByte b
    → IsByte c
    → IsByte d
    → bit_or (bit_or (bit_or (u32 (a * 2 ^ 24)) (u32 (b * 2 ^ 16))) (u32 (c * 2 ^ 8))) (u32 d)
      ≡ a * 2 ^ 24 + b * 2 ^ 16 + c * 2 ^ 8 + d
four_fields a b c d ha hb hc hd =
    let ea : u32 (a * 2 ^ 24) ≡ a * 2 ^ 24 = omega arith in
    let eb : u32 (b * 2 ^ 16) ≡ b * 2 ^ 16 = omega arith in
    let ec : u32 (c * 2 ^ 8) ≡ c * 2 ^ 8 = omega arith in
    let ed : u32 d ≡ d = omega arith in
    ap₂ bit_or
      (ap₂ bit_or (ap₂ bit_or ea eb ∙ bit_or_fields 24 a (b * 2 ^ 16) (omega arith) ∙ fold₁) ec
        ∙ bit_or_fields 16 (a * 2 ^ 8 + b) (c * 2 ^ 8) (omega arith)
        ∙ fold₂)
      ed
    ∙ bit_or_fields 8 (a * 2 ^ 16 + b * 2 ^ 8 + c) d (omega arith)
    ∙ omega arith
  where
    fold₁ : a * 2 ^ 24 + b * 2 ^ 16 ≡ (a * 2 ^ 8 + b) * 2 ^ 16
    fold₁ = omega arith

    fold₂ : (a * 2 ^ 8 + b) * 2 ^ 16 + c * 2 ^ 8 ≡ (a * 2 ^ 16 + b * 2 ^ 8 + c) * 2 ^ 8
    fold₂ = omega arith

-- On bytes GET_UINT32_BE at a multiple of 4 gives the word of the block, the highest byte first.
pub get_uint32_be_lem :
    (b : List ℕ) (t : ℕ) → All IsByte b → get_uint32_be b (4 * t) ≡ block_word b t
unfolding get_uint32_be
get_uint32_be_lem b t h =
    four_fields _ _ _ _ (byte_at-IsByte b _ h) (byte_at-IsByte b _ h) (byte_at-IsByte b _ h)
      (byte_at-IsByte b _ h)

pub block_word-IsWord : (b : List ℕ) (t : ℕ) → All IsByte b → IsWord (block_word b t)
block_word-IsWord b t h = omega (
  arith,
  byte_at-IsByte b (4 * t) h,
  byte_at-IsByte b (4 * t + 1) h,
  byte_at-IsByte b (4 * t + 2) h,
  byte_at-IsByte b (4 * t + 3) h,
)
