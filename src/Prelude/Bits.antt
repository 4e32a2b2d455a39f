-- ===== src/Prelude/Bits.antt =====
-- Laws of the bitwise operations at variables, from the digit recursion that they stand for: each
-- is determined by its half and its parity.
use Prim.Native.Nat.{ℕ, zero, suc, ◌+◌, ◌-◌, ◌*◌, ◌/◌, ◌%◌, ◌^◌, ◌≤◌, ◌<◌, min, max}
use Prim.Native.Nat.{bit_and, bit_or, bit_xor, digits, bitwise, bit_and-bitwise, bit_or-bitwise}
use Prim.Native.Nat.{bit_xor-bitwise, differ}
use mathlib.Core.Path.{◌≡◌, refl, ap, ◌∙◌}
use native.Mathlib.Nat.{
  le_refl, pow-suc, one-le-pow, add-mul-mod_self_right, mod-eq_of_lt, mod-lt, div-add-mod',
}
use native.Mathlib.Omega.{arith}

-- `lone` is what a digit operation does once the left argument has no digits left.
module _ (lone : ℕ → ℕ) (op : ℕ → ℕ → ℕ) where
  -- Fuel beyond the left argument changes nothing.
  digits_any_fuel : (x y s t : ℕ) → x ≤ s → x ≤ t → digits lone op t x y ≡ digits lone op s x y
  digits_any_fuel zero y zero zero h k = refl
  digits_any_fuel zero y zero (suc t) h k = refl
  digits_any_fuel zero y (suc s) zero h k = refl
  digits_any_fuel zero y (suc s) (suc t) h k = refl
  digits_any_fuel (suc x) y zero t h k = absurd (omega (arith, h))
  digits_any_fuel (suc x) y (suc s) zero h k = absurd (omega (arith, k))
  digits_any_fuel (suc x) y (suc s) (suc t) h k =
      let half = suc x / 2 in
      ap (λ rest. rest * 2 + op (suc x % 2) (y % 2))
        (digits_any_fuel half (y / 2) s t (omega (arith, h)) (omega (arith, k)))

  low_digit :
      (x y : ℕ)
      → bitwise lone op (suc x) y ≡ bitwise lone op (suc x / 2) (y / 2) * 2 + op (suc x % 2) (y % 2)
  low_digit x y =
      let half = suc x / 2 in
      ap (λ rest. rest * 2 + op (suc x % 2) (y % 2))
        (digits_any_fuel half (y / 2) half x (le_refl half) (omega arith))

bit_and_digit : (x y : ℕ) → bit_and x y ≡ bit_and (x / 2) (y / 2) * 2 + min (x % 2) (y % 2)
bit_and_digit zero y = simp bit_and-bitwise (omega arith)
bit_and_digit (suc x) y = simp bit_and-bitwise (low_digit (λ d. 0) min x y)

bit_or_digit : (x y : ℕ) → bit_or x y ≡ bit_or (x / 2) (y / 2) * 2 + max (x % 2) (y % 2)
bit_or_digit zero y = simp bit_or-bitwise (omega arith)
bit_or_digit (suc x) y = simp bit_or-bitwise (low_digit (λ d. d) max x y)

differ_of_bits : (a b : ℕ) → a < 2 → b < 2 → differ a b ≡ (a + b) % 2
differ_of_bits zero b h k = omega arith
differ_of_bits (suc zero) zero h k = refl
differ_of_bits (suc zero) (suc zero) h k = refl
differ_of_bits (suc zero) (suc (suc b)) h k = absurd (omega arith)
differ_of_bits (suc (suc a)) b h k = absurd (omega arith)

bit_xor_digit : (a b : ℕ) → bit_xor a b ≡ bit_xor (a / 2) (b / 2) * 2 + (a % 2 + b % 2) % 2
bit_xor_digit zero b = simp bit_xor-bitwise (omega arith)
bit_xor_digit (suc a) b = simp bit_xor-bitwise (
    low_digit (λ y. y) differ a b
    ∙ ap (λ t. bitwise (λ y. y) differ (suc a / 2) (b / 2) * 2 + t)
        (differ_of_bits (suc a % 2) (b % 2) (omega arith) (omega arith)))

pub bit_and-half : (a b : ℕ) → bit_and a b / 2 ≡ bit_and (a / 2) (b / 2)
bit_and-half a b = omega (arith, bit_and_digit a b)

pub bit_and-parity : (a b : ℕ) → bit_and a b % 2 ≡ min (a % 2) (b % 2)
bit_and-parity a b = omega (arith, bit_and_digit a b)

pub bit_or-half : (a b : ℕ) → bit_or a b / 2 ≡ bit_or (a / 2) (b / 2)
bit_or-half a b = omega (arith, bit_or_digit a b)

pub bit_or-parity : (a b : ℕ) → bit_or a b % 2 ≡ max (a % 2) (b % 2)
bit_or-parity a b = omega (arith, bit_or_digit a b)

pub bit_xor-half : (a b : ℕ) → bit_xor a b / 2 ≡ bit_xor (a / 2) (b / 2)
bit_xor-half a b = omega (arith, bit_xor_digit a b)

pub bit_xor-parity : (a b : ℕ) → bit_xor a b % 2 ≡ (a % 2 + b % 2) % 2
bit_xor-parity a b = omega (arith, bit_xor_digit a b)

ruleset halves = (bit_and-half, bit_or-half, bit_xor-half)

ruleset parities = (bit_and-parity, bit_or-parity, bit_xor-parity)

eq_of_halves : (a b : ℕ) → a / 2 ≡ b / 2 → a % 2 ≡ b % 2 → a ≡ b
eq_of_halves a b h p = omega arith

bit_and-zero : (n a : ℕ) → a ≤ n → bit_and a 0 ≡ 0
bit_and-zero zero a h = let e : a ≡ 0 = omega arith in rw e
bit_and-zero (suc n) a h =
    eq_of_halves _ _ (rw bit_and-half (bit_and-zero n (a / 2) (omega arith)))
      (rw bit_and-parity (omega arith))

zero-bit_and : (b : ℕ) → bit_and 0 b ≡ 0
zero-bit_and b = bit_and-bitwise 0 b

bit_or-zero : (n a : ℕ) → a ≤ n → bit_or a 0 ≡ a
bit_or-zero zero a h = let e : a ≡ 0 = omega arith in rw e
bit_or-zero (suc n) a h =
    eq_of_halves _ _ (rw bit_or-half (bit_or-zero n (a / 2) (omega arith)))
      (rw bit_or-parity (omega arith))

zero-bit_or : (a : ℕ) → bit_or 0 a ≡ a
zero-bit_or a = bit_or-bitwise 0 a

two_pow-suc : (q k : ℕ) → q * 2 ^ suc k ≡ 2 * (q * 2 ^ k)
two_pow-suc q k = omega (arith, ap (λ (t : ℕ). q * t) (pow-suc 2 k))

-- A word below 2 ^ k and a multiple of 2 ^ k have no bit in common.
pub bit_or_disjoint : (k lo q : ℕ) → lo < 2 ^ k → bit_or lo (q * 2 ^ k) ≡ lo + q * 2 ^ k
bit_or_disjoint zero lo q h =
    let e : lo ≡ 0 = omega arith in rw e (omega (arith, zero-bit_or (q * 1)))
bit_or_disjoint (suc k) lo q h =
    let ih = bit_or_disjoint k (lo / 2) q (omega (arith, pow-suc 2 k)) in
    let halved : q * 2 ^ suc k / 2 ≡ q * 2 ^ k = omega (arith, two_pow-suc q k) in
    eq_of_halves _ _ (rw (bit_or-half, halved) (omega (arith, ih, two_pow-suc q k)))
      (rw bit_or-parity (omega (arith, two_pow-suc q k)))

-- The same with the multiple first.
pub bit_or_fields : (k q lo : ℕ) → lo < 2 ^ k → bit_or (q * 2 ^ k) lo ≡ q * 2 ^ k + lo
bit_or_fields zero q lo h =
    let e : lo ≡ 0 = omega arith in rw e (omega (arith, bit_or-zero (q * 1) (q * 1)))
bit_or_fields (suc k) q lo h =
    let ih = bit_or_fields k q (lo / 2) (omega (arith, pow-suc 2 k)) in
    let halved : q * 2 ^ suc k / 2 ≡ q * 2 ^ k = omega (arith, two_pow-suc q k) in
    eq_of_halves _ _ (rw (bit_or-half, halved) (omega (arith, ih, two_pow-suc q k)))
      (rw bit_or-parity (omega (arith, two_pow-suc q k)))

mod_double : (a m : ℕ) → 0 < m → a % (m * 2) ≡ a / 2 % m * 2 + a % 2
mod_double a m pos =
    ap (λ t. t % (m * 2)) digits_of_a
    ∙ add-mul-mod_self_right (a / 2 % m * 2 + a % 2) (a / 2 / m) (m * 2)
    ∙ mod-eq_of_lt (omega (arith, mod-lt (a / 2) pos))
  where
    digits_of_a : a ≡ a / 2 % m * 2 + a % 2 + a / 2 / m * (m * 2)
    digits_of_a = omega (arith, div-add-mod' (a / 2) m)

mod_two_pow : (k a : ℕ) → a % 2 ^ suc k ≡ a / 2 % 2 ^ k * 2 + a % 2
mod_two_pow k a =
    ap (λ t. a % t) (pow-suc 2 k) ∙ mod_double a (2 ^ k) (one-le-pow k 2 (omega arith))

-- A mask of k ones is a remainder.
pub bit_and_mask : (k a : ℕ) → bit_and a (2 ^ k - 1) ≡ a % 2 ^ k
bit_and_mask zero a = omega (arith, bit_and-zero a a (le_refl _))
bit_and_mask (suc k) a =
    let halved : (2 ^ suc k - 1) / 2 ≡ 2 ^ k - 1 = omega (arith, pow-suc 2 k) in
    eq_of_halves _ _
      (rw (bit_and-half, halved) (bit_and_mask k (a / 2) ∙ omega (arith, mod_two_pow k a)))
      (rw bit_and-parity (omega (arith, mod_two_pow k a, pow-suc 2 k, one-le-pow k 2)))

-- Words of k bits stay words of k bits.
pub bit_xor-lt : (k a b : ℕ) → a < 2 ^ k → b < 2 ^ k → bit_xor a b < 2 ^ k
bit_xor-lt zero a b ha hb =
    let ea : a ≡ 0 = omega arith in let eb : b ≡ 0 = omega arith in rw (ea, eb) (omega arith)
bit_xor-lt (suc k) a b ha hb = omega (
  arith,
  pow-suc 2 k,
  bit_xor-half a b,
  bit_xor-lt k (a / 2) (b / 2) (omega (arith, pow-suc 2 k)) (omega (arith, pow-suc 2 k)),
)

-- The two ways to choose between the bits of `y` and `z` by those of `x`, for words of k bits.
pub choose_lem :
    (k x y z : ℕ)
    → x < 2 ^ k
    → z < 2 ^ k
    → bit_xor z (bit_and x (bit_xor y z)) ≡ bit_xor (bit_and x y) (bit_and (2 ^ k - 1 - x) z)
choose_lem zero x y z hx hz =
    let ex : x ≡ 0 = omega arith in let ez : z ≡ 0 = omega arith in rw (ex, ez) (simp zero-bit_and)
choose_lem (suc k) x y z hx hz =
    let half : (2 ^ suc k - 1 - x) / 2 ≡ 2 ^ k - 1 - x / 2 = omega (arith, pow-suc 2 k) in
    let parity : (2 ^ suc k - 1 - x) % 2 ≡ 1 - x % 2 = omega (arith, pow-suc 2 k) in
    eq_of_halves _ _
      (simp (halves, half)
        (choose_lem k (x / 2) (y / 2) (z / 2) (omega (arith, pow-suc 2 k))
          (omega (arith, pow-suc 2 k))))
      (simp (parities, parity) (omega arith))

-- The two ways to write the majority of three bits.
majority_fuel :
    (n x y z : ℕ)
    → x ≤ n
    → y ≤ n
    → z ≤ n
    → bit_or (bit_and x y) (bit_and z (bit_or x y))
      ≡ bit_xor (bit_xor (bit_and x y) (bit_and x z)) (bit_and y z)
majority_fuel zero x y z hx hy hz =
    let ex : x ≡ 0 = omega arith in
    let ey : y ≡ 0 = omega arith in let ez : z ≡ 0 = omega arith in rw (ex, ey, ez)
majority_fuel (suc n) x y z hx hy hz =
    eq_of_halves _ _
      (simp halves
        (majority_fuel n (x / 2) (y / 2) (z / 2) (omega arith) (omega arith) (omega arith)))
      (simp parities (omega arith))

pub majority_lem :
    (x y z : ℕ)
    → bit_or (bit_and x y) (bit_and z (bit_or x y))
      ≡ bit_xor (bit_xor (bit_and x y) (bit_and x z)) (bit_and y z)
majority_lem x y z = majority_fuel (x + y + z) x y z (omega arith) (omega arith) (omega arith)
