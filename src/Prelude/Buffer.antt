-- ===== src/Prelude/Buffer.antt =====
-- C arrays of bytes: `memcpy` into a buffer, and text that ends at its first zero.
use mathlib.Core.Path.{◌≡◌, refl, sym, ap, ◌∙◌}
use mathlib.Core.List.{List, [], ◌∷◌, ◌++◌, append_assoc}
use Prim.Native.Nat.{ℕ, zero, suc, ◌+◌, ◌-◌, ◌≤◌, ◌<◌}
use native.Mathlib.Omega.{arith}
use clink3_wiki.Prelude.Tests.{◌==◌, if◌then◌else◌}
use clink3_wiki.Prelude.Lists.{length, replicate, drop, All, length-append, length-replicate}

-- `memcpy(buf + off, src, length src)`. Bytes that would fall behind the end of the buffer, which
-- C leaves undefined, are lost here.
abbrev pub memcpy : List ℕ → ℕ → List ℕ → List ℕ
memcpy [] off src = []
memcpy (b ∷ buf) (suc off) src = b ∷ memcpy buf off src
memcpy (b ∷ buf) zero [] = b ∷ buf
memcpy (b ∷ buf) zero (s ∷ src) = s ∷ memcpy buf zero src

-- The bytes before the first zero. C reads on behind the end of a buffer without one.
abbrev pub strlen : List ℕ → ℕ
strlen [] = 0
strlen (c ∷ s) = if c == 0 then 0 else suc (strlen s)

-- Text has no zero byte.
abbrev pub IsText : List ℕ → Type 0
IsText = All (λ c. 0 < c)

pub length-memcpy :
    (buf : List ℕ) (off : ℕ) (src : List ℕ) → length (memcpy buf off src) ≡ length buf
length-memcpy [] off src = refl
length-memcpy (b ∷ buf) (suc off) src = ap suc (length-memcpy buf off src)
length-memcpy (b ∷ buf) zero [] = refl
length-memcpy (b ∷ buf) zero (s ∷ src) = ap suc (length-memcpy buf zero src)

pub memcpy-start :
    (buf src : List ℕ) → length src ≤ length buf → memcpy buf 0 src ≡ src ++ drop (length src) buf
memcpy-start [] [] h = refl
memcpy-start [] (s ∷ src) h = absurd (omega arith)
memcpy-start (b ∷ buf) [] h = refl
memcpy-start (b ∷ buf) (s ∷ src) h = ap (λ t. s ∷ t) (memcpy-start buf src (omega arith))

-- A copy that fits replaces what stands at its place, and nothing else.
pub memcpy_lem :
    (off : ℕ) (pre post src : List ℕ)
    → off ≡ length pre
    → length src ≤ length post
    → memcpy (pre ++ post) off src ≡ pre ++ (src ++ drop (length src) post)
memcpy_lem zero [] post src e h = memcpy-start post src h
memcpy_lem zero (x ∷ pre) post src e h = absurd (omega arith)
memcpy_lem (suc off) [] post src e h = absurd (omega arith)
memcpy_lem (suc off) (x ∷ pre) post src e h =
    ap (λ t. x ∷ t) (memcpy_lem off pre post src (omega arith) h)

pub strlen-append : (s rest : List ℕ) → IsText s → strlen rest ≡ 0 → strlen (s ++ rest) ≡ length s
strlen-append [] rest t e = e
strlen-append (c ∷ s) rest t e = ground (arith, strlen-append s rest t.1 e)

pub strlen-replicate : (n : ℕ) → strlen (replicate n 0) ≡ 0
strlen-replicate zero = refl
strlen-replicate (suc n) = refl

pub drop-replicate : (k n : ℕ) → drop {A = ℕ} k (replicate n 0) ≡ replicate (n - k) 0
drop-replicate zero n = let e : n - 0 ≡ n = omega arith in rw e
drop-replicate (suc k) zero = let e : 0 - suc k ≡ 0 = omega arith in rw e
drop-replicate (suc k) (suc n) =
    let e : suc n - suc k ≡ n - k = omega arith in rw e (drop-replicate k n)

-- A buffer of `room` bytes that holds the text `s`, and zeros behind it.
abbrev pub Holds : ℕ → List ℕ → List ℕ → Type 0
Holds room s buf = (buf ≡ s ++ replicate (room - length s) 0) × (length s ≤ room)

pub strlen-Holds :
    (room : ℕ) (s : List ℕ) {buf : List ℕ} → IsText s → Holds room s buf → strlen buf ≡ length s
strlen-Holds room s {buf} t h =
    ap strlen h.0 ∙ strlen-append s _ t (strlen-replicate (room - length s))

-- Appending to the text of a zeroed buffer.
pub memcpy-Holds :
    (room : ℕ) (s : List ℕ) {buf : List ℕ} (src : List ℕ)
    → Holds room s buf
    → length s + length src ≤ room
    → Holds room (s ++ src) (memcpy buf (length s) src)
memcpy-Holds room s {buf} src h fits = (
  ap (λ b. memcpy b (length s) src) h.0
      ∙ memcpy_lem (length s) s (replicate (room - length s) 0) src refl
          (omega (arith, length-replicate {A = ℕ} (room - length s) 0))
      ∙ ap (λ b. s ++ (src ++ b)) (drop-replicate (length src) (room - length s))
      ∙ sym (append_assoc s src _)
      ∙ ap (λ n. (s ++ src) ++ replicate n 0) (omega (arith, length-append s src)),
  omega (arith, length-append s src),
)

pub memcpy-nil : (buf : List ℕ) (off : ℕ) → memcpy buf off [] ≡ buf
memcpy-nil [] off = refl
memcpy-nil (b ∷ buf) zero = refl
memcpy-nil (b ∷ buf) (suc off) = ap (λ t. b ∷ t) (memcpy-nil buf off)

-- Two copies, the second behind the first, are one.
pub memcpy-memcpy :
    (buf : List ℕ) (off : ℕ) (first second : List ℕ)
    → memcpy (memcpy buf off first) (off + length first) second ≡ memcpy buf off (first ++ second)
memcpy-memcpy [] off first second = refl
memcpy-memcpy (b ∷ buf) zero [] second = refl
memcpy-memcpy (b ∷ buf) zero (c ∷ first) second =
    let e : 0 + suc (length first) ≡ suc (0 + length first) = omega arith in
    rw e (ap (λ t. c ∷ t) (memcpy-memcpy buf 0 first second))
memcpy-memcpy (b ∷ buf) (suc off) first second =
    let e : suc off + length first ≡ suc (off + length first) = omega arith in
    rw e (ap (λ t. b ∷ t) (memcpy-memcpy buf off first second))
