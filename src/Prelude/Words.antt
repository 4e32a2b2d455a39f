-- ===== src/Prelude/Words.antt =====
-- Unsigned machine words as native numbers, and bytes as numbers below 256.
use Prim.Native.Nat.{ℕ, ◌/◌, ◌%◌, ◌^◌, ◌<◌}
use mathlib.Core.List.{List, [], ◌∷◌}

-- A conversion to `unsigned char`, `uint32_t` or `uint64_t`.
abbrev pub u8 : ℕ → ℕ
u8 n = n % 2 ^ 8

abbrev pub u32 : ℕ → ℕ
u32 n = n % 2 ^ 32

abbrev pub u64 : ℕ → ℕ
u64 n = n % 2 ^ 64

-- A `uint32_t` is a number below 2 ^ 32, a byte one below 2 ^ 8.
abbrev pub IsWord : ℕ → Type 0
IsWord n = n < 2 ^ 32

abbrev pub IsByte : ℕ → Type 0
IsByte n = n < 2 ^ 8

-- The four bytes of a word, the highest first.
abbrev pub be32 : ℕ → List ℕ
be32 n = u8 (n / 2 ^ 24) ∷ u8 (n / 2 ^ 16) ∷ u8 (n / 2 ^ 8) ∷ u8 n ∷ []
