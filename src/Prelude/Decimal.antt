-- ===== src/Prelude/Decimal.antt =====
-- Numbers as `printf` writes them with %d.
use Prim.Native.Nat.{ℕ, zero, suc, ◌+◌, ◌-◌, ◌*◌, ◌/◌, ◌%◌, ◌^◌, ◌≤◌, ◌<◌}
use mathlib.Core.Path.{◌≡◌, refl, ap, ◌∙◌}
use mathlib.Core.Logic.{inl, inr}
use mathlib.Core.List.{List, [], ◌∷◌, ◌++◌}
use mathlib.Core.Bool.{false}
use native.Mathlib.Nat.{pow-suc}
use native.Mathlib.Omega.{arith}
use clink3_wiki.Prelude.Tests.{ltb, leb, ◌==◌, if◌then◌else◌, Bool-cases}
use clink3_wiki.Prelude.Lists.{length, length-append, All, All-append}
use clink3_wiki.Prelude.Int.{ℤ, pos, negsuc, sub_ℕ}

-- At most `room` digits, the highest first
unfoldable pub digits : ℕ → ℕ → List ℕ
digits zero n = []
digits (suc room) n =
    let before = digits room (n / 10) in
    if ltb n 10 then (b'0' + n) ∷ [] else before ++ (b'0' + n % 10) ∷ []

-- `%d` and `%u` of a number below 2 ^ 32, which has at most ten digits
unfoldable pub decimal : ℕ → List ℕ
unfolding digits
decimal n = digits 10 n

unfoldable pub decimal_int : ℤ → List ℕ
unfolding decimal
decimal_int (pos n) = decimal n
decimal_int (negsuc n) = b'-' ∷ decimal (n + 1)

-- What the digits stand for, behind the number `n`
unfoldable pub read_digits : ℕ → List ℕ → ℕ
read_digits n [] = n
read_digits n (c ∷ s) = read_digits (n * 10 + (c - b'0')) s

read_digits-append :
    (n : ℕ) (s t : List ℕ) → read_digits n (s ++ t) ≡ read_digits (read_digits n s) t
unfolding read_digits
read_digits-append n [] t = refl
read_digits-append n (c ∷ s) t = read_digits-append (n * 10 + (c - b'0')) s t

pub read_digits-digits : (room n : ℕ) → n < 10 ^ room → read_digits 0 (digits room n) ≡ n
unfolding read_digits digits
read_digits-digits zero n h = omega arith
read_digits-digits (suc room) n h =
    let ih = read_digits-digits room (n / 10) (omega (arith, h, pow-suc 10 room)) in
    elim (Bool-cases (ltb n 10)) [
      | inl one ↦ rw one (omega arith)
      | inr more ↦
          rw (more, read_digits-append 0 (digits room (n / 10)) ((b'0' + n % 10) ∷ []), ih)
            (omega arith)
    ]

pub length-digits : (room n : ℕ) → length (digits room n) ≤ room
unfolding digits
length-digits zero n = omega arith
length-digits (suc room) n = elim (Bool-cases (ltb n 10)) [
  | inl one ↦ rw one (omega arith)
  | inr more ↦ rw more (
      omega (
        arith,
        length-append (digits room (n / 10)) ((b'0' + n % 10) ∷ []),
        length-digits room (n / 10),
      ))
]

pub length-decimal_int : (z : ℤ) → length (decimal_int z) ≤ 11
unfolding decimal_int decimal
length-decimal_int (pos n) = omega (arith, length-digits 10 n)
length-decimal_int (negsuc n) = omega (arith, length-digits 10 (n + 1))

digits-are_digits : (room n : ℕ) → All (λ c. b'0' ≤ c) (digits room n)
unfolding digits
digits-are_digits zero n = tt
digits-are_digits (suc room) n = elim (Bool-cases (ltb n 10)) [
  | inl one ↦ rw one (omega arith, tt)
  | inr more ↦ rw more (
      All-append (λ c. b'0' ≤ c) (digits room (n / 10)) ((b'0' + n % 10) ∷ [])
        (digits-are_digits room (n / 10)) (omega arith, tt))
]

-- The number that a text with an optional minus sign stands for
unfoldable pub read_int : List ℕ → ℤ
unfolding read_digits
read_int [] = pos 0
read_int (c ∷ s) = if c == b'-' then sub_ℕ 0 (read_digits 0 s) else pos (read_digits 0 (c ∷ s))

read_int-digits : (s : List ℕ) → All (λ c. b'0' ≤ c) s → read_int s ≡ pos (read_digits 0 s)
unfolding read_int read_digits
read_int-digits [] h = refl
read_int-digits (c ∷ s) h =
    let no_minus : (c == b'-') ≡ false = ground (arith, h.0) in rw no_minus refl

-- The values of an `int`
abbrev pub IsInt : ℤ → Type 0
IsInt (pos n) = n < 0x80000000
IsInt (negsuc n) = n < 0x80000000

read_int-minus : (s : List ℕ) → read_int (b'-' ∷ s) ≡ sub_ℕ 0 (read_digits 0 s)
unfolding read_int
read_int-minus s = refl

pub read_int-decimal_int : (z : ℤ) → IsInt z → read_int (decimal_int z) ≡ z
unfolding decimal_int decimal
read_int-decimal_int (pos n) h =
    read_int-digits (digits 10 n) (digits-are_digits 10 n)
    ∙ ap pos (read_digits-digits 10 n (omega (arith, h)))
read_int-decimal_int (negsuc n) h =
    let back : n + 1 - 0 - 1 ≡ n = omega arith in
    let positive : leb (n + 1) 0 ≡ false = ground arith in
    read_int-minus (digits 10 (n + 1))
    ∙ ap (sub_ℕ 0) (read_digits-digits 10 (n + 1) (omega (arith, h)))
    ∙ rw (positive, back) refl
