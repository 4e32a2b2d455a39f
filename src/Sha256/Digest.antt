-- ===== src/Sha256/Digest.antt =====
-- `utils_sha256_finish` and `utils_sha256` compute the hash of FIPS 180-4.
use Prim.Native.Nat.{bit_and, bit_or}
use clink3_wiki.Prelude.{
  ℕ, zero, suc, ◌+◌, ◌-◌, ◌*◌, ◌/◌, ◌%◌, ◌^◌, ◌≤◌, ◌<◌, ◌≡◌, refl, ap, ap₂, subst, ◌∙◌, sym, List,
  [], ◌∷◌, ◌++◌, arith, All, All-replicate, length, length-append, length-take, take, replicate,
  length-replicate, take-append, take-replicate, drop-append, append-nil, nil_of_length,
}
use clink3_wiki.Prelude.Words.{u32, be32, IsByte}
use clink3_wiki.Prelude.Bits.{bit_and_mask, bit_or_disjoint}
use clink3_wiki.Sha256.Process.{Eight}
use clink3_wiki.Sha256.Stream.{
  Context, initial_state, init, starts, update, finish, sha256, sha256_padding, padding_length,
  message_length, put_digest,
}
use clink3_wiki.Sha256.Spec.{blocks, compress_all, pad, digest, hash}
use clink3_wiki.Sha256.Blocks.{concat, IsBlock, length-concat}
use clink3_wiki.Sha256.Absorb.{Absorbed}
use clink3_wiki.Sha256.Update.{update-Absorbed}

-- A fresh context stands for the empty message, whatever was in it before.
pub starts-Absorbed : (ctx : Context) → Absorbed (starts (init ctx)) []
unfolding starts init compress_all
starts-Absorbed ctx = record {
  buffered = record {
    whole = [];
    rest = [];
    free = replicate 64 0;
    shape = tt;
    split = refl;
    digest = refl;
    short = omega arith;
    kept = refl;
    size = length-replicate {A = ℕ} 64 0;
    bytes = tt;
  };
  low = refl;
  high = refl;
  sha256 = refl;
}

blocks-concat :
    (bs : List (List ℕ)) (n : ℕ) → All IsBlock bs → n ≡ length bs → blocks n (concat bs) ≡ bs
unfolding blocks
blocks-concat [] zero h e = refl
blocks-concat [] (suc n) h e = absurd (omega arith)
blocks-concat (b ∷ bs) zero h e = absurd (omega arith)
blocks-concat (b ∷ bs) (suc n) h e = ap₂ ◌∷◌ (take-append 64 b (concat bs) (sym h.0.0)) (
    ap (blocks n) (drop-append 64 b (concat bs) (sym h.0.0)) ∙ blocks-concat bs n h.1 (omega arith))

-- With a message of whole blocks the chaining state is that of all its blocks.
state_of_whole_blocks :
    (ctx : Context) (m : List ℕ)
    → Absorbed ctx m
    → length m % 64 ≡ 0
    → ctx.state ≡ compress_all initial_state (blocks (length m / 64) m)
state_of_whole_blocks ctx m a aligned =
    let b = a.buffered in
    let size = ap length b.split ∙ length-append (concat b.whole) b.rest in
    let count = length-concat b.whole b.shape in
    let no_rest = nil_of_length b.rest (omega (arith, size, count, b.short)) in
    let m_eq = b.split ∙ ap (λ t. concat b.whole ++ t) no_rest ∙ append-nil (concat b.whole) in
    b.digest
    ∙ ap (compress_all initial_state) (
        sym (
          ap (blocks (length m / 64)) m_eq
          ∙ blocks-concat b.whole (length m / 64) b.shape (omega (arith, size, count, b.short))))

-- The padding that the code takes from `sha256_padding`
padding_lem :
    (n : ℕ)
    → take (padding_length (n % 64)) sha256_padding ≡ 0x80 ∷ replicate ((119 - n % 64) % 64) 0
padding_lem n =
    let count : padding_length (n % 64) ≡ suc ((119 - n % 64) % 64) =
      unfold padding_length in ground arith in
    ap (λ k. take k sha256_padding) count
    ∙ ap (λ t. 0x80 ∷ t) (take-replicate {A = ℕ} ((119 - n % 64) % 64) 63 0 (omega arith))

message_length_lem :
    (n : ℕ)
    → n < 2 ^ 61
    → message_length (n % 2 ^ 32) (n / 2 ^ 32 % 2 ^ 32)
      ≡ be32 (8 * n / 2 ^ 32) ++ be32 (8 * n % 2 ^ 32)
unfolding message_length
message_length_lem n h =
    let cut : u32 (n / 2 ^ 32 % 2 ^ 32 * 2 ^ 3) ≡ n / 2 ^ 32 * 2 ^ 3 = omega arith in
    let high = bit_or_disjoint 3 (n % 2 ^ 32 / 2 ^ 29) (n / 2 ^ 32) (omega arith) in
    let sum : n % 2 ^ 32 / 2 ^ 29 + n / 2 ^ 32 * 2 ^ 3 ≡ 8 * n / 2 ^ 32 = omega arith in
    let low : u32 (n % 2 ^ 32 * 2 ^ 3) ≡ 8 * n % 2 ^ 32 = omega arith in
    ap₂ (λ x y. be32 x ++ be32 y) (ap (bit_or (n % 2 ^ 32 / 2 ^ 29)) cut ∙ high ∙ sum) low

padding_length_bounds : (r : ℕ) → r < 64 → (0 < padding_length r) × (padding_length r ≤ 64)
unfolding padding_length
padding_length_bounds r h = ground arith

padding-IsByte : All IsByte sha256_padding
padding-IsByte = (omega arith, All-replicate IsByte 63 0 (omega arith))

length-padding : length sha256_padding ≡ 64
length-padding = ap suc (length-replicate {A = ℕ} 63 0)

message_length_bytes :
    (low high : ℕ)
    → All IsByte (message_length low high)
      × (length (message_length low high) ≡ 8)
      × (take 8 (message_length low high) ≡ message_length low high)
unfolding message_length
message_length_bytes low high = (omega arith, refl, refl)

pub length-pad : (m : List ℕ) → length (pad m) % 64 ≡ 0
unfolding pad
length-pad m =
    let n = length m in
    let zeros : List ℕ = replicate ((119 - n % 64) % 64) 0 in
    omega (
      arith,
      length-append (m ++ 0x80 ∷ zeros) (be32 (8 * n / 2 ^ 32) ++ be32 (8 * n % 2 ^ 32)),
      length-append m (0x80 ∷ zeros),
      length-replicate {A = ℕ} ((119 - n % 64) % 64) 0,
    )

-- The context that `utils_sha256_finish` leaves stands for the padded message.
finish-Absorbed :
    (ctx : Context) (m output : List ℕ)
    → Absorbed ctx m
    → length m < 2 ^ 61
    → Absorbed (finish ctx output).0 (pad m)
unfolding finish
finish-Absorbed ctx m output a small =
    let padn = padding_length (bit_and ctx.total0 0x3f) in
    let msglen = message_length ctx.total0 ctx.total1 in
    let bytes = message_length_bytes ctx.total0 ctx.total1 in
    let bounds = padding_length_bounds (bit_and ctx.total0 0x3f) (rw last (omega arith)) in
    let padded =
      update-Absorbed ctx m sha256_padding padn a padding-IsByte
        (omega (arith, bounds, length-padding)) (omega (arith, bounds)) in
    subst (Absorbed (update (update ctx sha256_padding padn) msglen 8)) message (
      update-Absorbed (update ctx sha256_padding padn) (m ++ take padn sha256_padding) msglen 8
        padded bytes.0 (omega (arith, bytes.1)) (omega arith))
  where
    last : bit_and ctx.total0 0x3f ≡ length m % 64
    last = bit_and_mask 6 ctx.total0 ∙ omega (arith, a.low)

    message :
        (m ++ take (padding_length (bit_and ctx.total0 0x3f)) sha256_padding)
          ++ take 8 (message_length ctx.total0 ctx.total1)
        ≡ pad m
    message =
        unfold pad in
        ap₂ ◌++◌
          (ap (λ t. m ++ t)
            (ap (λ k. take (padding_length k) sha256_padding) last ∙ padding_lem (length m)))
          ((message_length_bytes ctx.total0 ctx.total1).2
            ∙ ap₂ message_length a.low a.high
            ∙ message_length_lem (length m) small)

finish_output :
    (ctx : Context) (output : List ℕ)
    → (finish ctx output).1
      ≡ put_digest (finish ctx output).0.state (finish ctx output).0.is224 output
unfolding finish
finish_output ctx output = refl

put_digest-full :
    (s : Eight) (is224 : ℕ) (output : List ℕ) → is224 ≡ 0 → put_digest s is224 output ≡ digest s
unfolding put_digest
put_digest-full s is224 output e = rw e

-- `utils_sha256_finish` pads the message and returns the standard's hash of it, for a message
-- shorter than 2 ^ 61 bytes, whatever `output` held.
pub finish-hash :
    (ctx : Context) (m output : List ℕ)
    → Absorbed ctx m
    → length m < 2 ^ 61
    → (finish ctx output).1 ≡ hash m
finish-hash ctx m output a small =
    let done = finish-Absorbed ctx m output a small in
    finish_output ctx output
    ∙ put_digest-full _ _ output done.sha256
    ∙ (unfold hash in
        ap digest (state_of_whole_blocks (finish ctx output).0 (pad m) done (length-pad m)))

-- One call of `utils_sha256` on up to 2 ^ 32 - 1 bytes is the standard's hash of them, whatever
-- the stack variable and `output` held.
pub sha256-hash :
    (ctx : Context) (input output : List ℕ) (ilen : ℕ)
    → All IsByte input
    → ilen ≤ length input
    → ilen < 2 ^ 32
    → (sha256 ctx input ilen output).1 ≡ hash (take ilen input)
unfolding sha256
sha256-hash ctx input output ilen hb hl small =
    finish-hash (update (starts (init ctx)) input ilen) (take ilen input) output
      (update-Absorbed (starts (init ctx)) [] input ilen (starts-Absorbed ctx) hb hl small)
      (omega (arith, length-take ilen input))
