-- ===== src/Sha256/Tests.antt =====
-- Runs of SHA-256 on the vectors of FIPS 180-4.
use clink3_wiki.Prelude.{ℕ, List, [], ◌∷◌, ◌++◌, ◌≡◌, refl, replicate, take, All, arith}
use clink3_wiki.Prelude.Words.{IsByte}
use clink3_wiki.Sha256.Word.{get_uint32_be, s0, s1, s2, s3, f0, f1}
use clink3_wiki.Sha256.Process.{expand, step, process}
use clink3_wiki.Sha256.Stream.{
  Context, initial_state, absorb_rest, count_bytes, init, starts, blocks_loop, update, finish,
  sha256, zero_eight,
}
use clink3_wiki.Sha256.Spec.{hash, compress}
use clink3_wiki.Sha256.Rounds.{process-compress}
use clink3_wiki.Sha256.Absorb.{Absorbed, initial-IsEight}
use clink3_wiki.Sha256.Update.{update-Absorbed}
use clink3_wiki.Sha256.Digest.{starts-Absorbed, finish-hash, sha256-hash}

abbrev blank : Context
blank = record { total0 = 7; total1 = 7; state = zero_eight; buffer = replicate 64 9; is224 = 7 }

abbrev abc_digest : List ℕ
abc_digest =
    0xba ∷ 0x78 ∷ 0x16 ∷ 0xbf ∷ 0x8f ∷ 0x01 ∷ 0xcf ∷ 0xea ∷ 0x41 ∷ 0x41 ∷ 0x40 ∷ 0xde ∷ 0x5d ∷ 0xae
    ∷ 0x22 ∷ 0x23 ∷ 0xb0 ∷ 0x03 ∷ 0x61 ∷ 0xa3 ∷ 0x96 ∷ 0x17 ∷ 0x7a ∷ 0x9c ∷ 0xb4 ∷ 0x10 ∷ 0xff
    ∷ 0x61 ∷ 0xf2 ∷ 0x00 ∷ 0x15 ∷ 0xad ∷ []

hash-abc : hash (0x61 ∷ 0x62 ∷ 0x63 ∷ []) ≡ abc_digest
unfolding hash
hash-abc = refl

sha256-abc : (sha256 blank (0x61 ∷ 0x62 ∷ 0x63 ∷ []) 3 (replicate 32 0)).1 ≡ abc_digest
unfolding sha256 finish update absorb_rest count_bytes blocks_loop starts init process step expand
    s0 s1 s2 s3 f0 f1 get_uint32_be
sha256-abc = refl

abbrev abc : List ℕ
abc = 0x61 ∷ 0x62 ∷ 0x63 ∷ []

abc-IsByte : All IsByte abc
abc-IsByte = omega arith

abbrev block_of_ones : List ℕ
block_of_ones = replicate 64 1

block_of_ones-IsByte : All IsByte block_of_ones
block_of_ones-IsByte = omega arith

sha256-hash_example : (sha256 blank abc 3 (replicate 32 0)).1 ≡ hash (take 3 abc)
sha256-hash_example =
    sha256-hash blank abc (replicate 32 0) 3 abc-IsByte (omega arith) (omega arith)

-- Two calls: one byte waits in the buffer, then 64 bytes fill it and one is left.
update-Absorbed_example :
    Absorbed
      (update (update (starts (init blank)) abc 1) block_of_ones 64)
      (([] ++ take 1 abc) ++ take 64 block_of_ones)
update-Absorbed_example =
    update-Absorbed (update (starts (init blank)) abc 1) ([] ++ take 1 abc) block_of_ones 64
      (update-Absorbed (starts (init blank)) [] abc 1 (starts-Absorbed blank) abc-IsByte
        (omega arith) (omega arith))
      block_of_ones-IsByte (omega arith) (omega arith)

finish-hash_example :
    (finish (update (starts (init blank)) abc 3) (replicate 32 0)).1 ≡ hash ([] ++ take 3 abc)
finish-hash_example =
    finish-hash (update (starts (init blank)) abc 3) ([] ++ take 3 abc) (replicate 32 0)
      (update-Absorbed (starts (init blank)) [] abc 3 (starts-Absorbed blank) abc-IsByte
        (omega arith) (omega arith))
      (omega arith)

process-compress_example :
    process initial_state block_of_ones ≡ compress initial_state block_of_ones
process-compress_example =
    process-compress initial_state block_of_ones initial-IsEight block_of_ones-IsByte
