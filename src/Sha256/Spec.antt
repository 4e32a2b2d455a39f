-- ===== src/Sha256/Spec.antt =====
-- FIPS 180-4: the functions, the message schedule, the compression function, the padding and the
-- hash, written without reference to the code.
use Prim.Native.Nat.{bit_and, bit_xor}
use clink3_wiki.Prelude.{
  ℕ, zero, suc, ◌+◌, ◌-◌, ◌*◌, ◌/◌, ◌%◌, ◌^◌, List, [], ◌∷◌, ◌++◌, length, take, drop, get_or,
  replicate, ltb, if◌then◌else◌,
}
use clink3_wiki.Prelude.Words.{u32, be32}
use clink3_wiki.Sha256.Word.{round_constant, byte_at}
use clink3_wiki.Sha256.Process.{Eight}
use clink3_wiki.Sha256.Stream.{initial_state}

-- The circular shift: the low `n` bits come back at the top.
abbrev pub rot_right : ℕ → ℕ → ℕ
rot_right n x = x / 2 ^ n + x % 2 ^ n * 2 ^ (32 - n)

abbrev pub ch : ℕ → ℕ → ℕ → ℕ
ch x y z = bit_xor (bit_and x y) (bit_and (2 ^ 32 - 1 - x) z)

abbrev pub maj : ℕ → ℕ → ℕ → ℕ
maj x y z = bit_xor (bit_xor (bit_and x y) (bit_and x z)) (bit_and y z)

abbrev pub upper_sigma0 : ℕ → ℕ
upper_sigma0 x = bit_xor (bit_xor (rot_right 2 x) (rot_right 13 x)) (rot_right 22 x)

abbrev pub upper_sigma1 : ℕ → ℕ
upper_sigma1 x = bit_xor (bit_xor (rot_right 6 x) (rot_right 11 x)) (rot_right 25 x)

abbrev pub lower_sigma0 : ℕ → ℕ
lower_sigma0 x = bit_xor (bit_xor (rot_right 7 x) (rot_right 18 x)) (x / 2 ^ 3)

abbrev pub lower_sigma1 : ℕ → ℕ
lower_sigma1 x = bit_xor (bit_xor (rot_right 17 x) (rot_right 19 x)) (x / 2 ^ 10)

-- Word `t` of a block, the highest byte first
abbrev pub block_word : List ℕ → ℕ → ℕ
block_word block t =
    byte_at block (4 * t) * 2 ^ 24
    + byte_at block (4 * t + 1) * 2 ^ 16
    + byte_at block (4 * t + 2) * 2 ^ 8
    + byte_at block (4 * t + 3)

-- The next word of the schedule, after the words `ws`
unfoldable pub next_word : List ℕ → List ℕ → ℕ
next_word block ws =
    let t = length ws in
    if ltb t 16
    then block_word block t
    else u32 (
        lower_sigma1 (get_or ws (t - 2) 0)
        + get_or ws (t - 7) 0
        + lower_sigma0 (get_or ws (t - 15) 0)
        + get_or ws (t - 16) 0)

-- The `n` words that follow `ws`
unfoldable pub words_after : List ℕ → ℕ → List ℕ → List ℕ
words_after block zero ws = []
words_after block (suc n) ws = let w = next_word block ws in w ∷ words_after block n (ws ++ w ∷ [])

unfoldable pub schedule : List ℕ → List ℕ
unfolding words_after next_word
schedule block = words_after block 64 []

unfoldable pub round : Eight → ℕ → ℕ → Eight
round v w k =
    let t1 = v.w7 + upper_sigma1 v.w4 + ch v.w4 v.w5 v.w6 + k + w in
    let t2 = upper_sigma0 v.w0 + maj v.w0 v.w1 v.w2 in
    record {
      w0 = u32 (t1 + t2);
      w1 = v.w0;
      w2 = v.w1;
      w3 = v.w2;
      w4 = u32 (v.w3 + t1);
      w5 = v.w4;
      w6 = v.w5;
      w7 = v.w6;
    }

-- The rounds from round `t` on, a word for each
unfoldable pub rounds : ℕ → List ℕ → Eight → Eight
rounds t [] v = v
rounds t (w ∷ ws) v = rounds (t + 1) ws (round v w (round_constant t))

unfoldable pub compress : Eight → List ℕ → Eight
unfolding rounds round schedule round_constant
compress h block =
    let v = rounds 0 (schedule block) h in
    record {
      w0 = u32 (h.w0 + v.w0);
      w1 = u32 (h.w1 + v.w1);
      w2 = u32 (h.w2 + v.w2);
      w3 = u32 (h.w3 + v.w3);
      w4 = u32 (h.w4 + v.w4);
      w5 = u32 (h.w5 + v.w5);
      w6 = u32 (h.w6 + v.w6);
      w7 = u32 (h.w7 + v.w7);
    }

-- The blocks of a message whose length is a multiple of 64
unfoldable pub blocks : ℕ → List ℕ → List (List ℕ)
blocks zero m = []
blocks (suc n) m = take 64 m ∷ blocks n (drop 64 m)

unfoldable pub compress_all : Eight → List (List ℕ) → Eight
compress_all h [] = h
compress_all h (b ∷ bs) = compress_all (compress h b) bs

-- A one bit, the fewest zero bits that leave room, and the length in bits as 64 bits
unfoldable pub pad : List ℕ → List ℕ
pad m =
    let n = length m in
    (m ++ 0x80 ∷ replicate ((119 - n % 64) % 64) 0)
    ++ (be32 (8 * n / 2 ^ 32) ++ be32 (8 * n % 2 ^ 32))

abbrev pub digest : Eight → List ℕ
digest s =
    be32 s.w0
    ++ (be32 s.w1
        ++ (be32 s.w2 ++ (be32 s.w3 ++ (be32 s.w4 ++ (be32 s.w5 ++ (be32 s.w6 ++ be32 s.w7))))))

unfoldable pub hash : List ℕ → List ℕ
unfolding pad blocks compress_all compress
hash m = let p = pad m in digest (compress_all initial_state (blocks (length p / 64) p))
