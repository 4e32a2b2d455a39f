-- ===== src/Sha256/Absorb.antt =====
-- `utils_sha256_update` absorbs its input: the context stands for the whole blocks of the message
-- so far, compressed, with the rest of the message in the buffer and the length in `total`.
use clink3_wiki.Prelude.{
  ℕ, ◌+◌, ◌/◌, ◌%◌, ◌^◌, ◌<◌, ◌≡◌, refl, ap, ◌∙◌, sym, List, [], ◌∷◌, ◌++◌, arith, All, All-append,
  length, length-append, drop, append_assoc, append-nil, drop_all,
}
use clink3_wiki.Prelude.Words.{IsByte}
use clink3_wiki.Prelude.Buffer.{memcpy, memcpy_lem, length-memcpy}
use clink3_wiki.Sha256.Process.{Eight, process}
use clink3_wiki.Sha256.Stream.{Context, initial_state}
use clink3_wiki.Sha256.Spec.{compress, compress_all}
use clink3_wiki.Sha256.Rounds.{IsEight, process-compress}
use clink3_wiki.Sha256.Blocks.{
  concat, IsBlock, concat-append, compress_all-append, compress_all-IsEight,
}

pub initial-IsEight : IsEight initial_state
initial-IsEight = omega arith

-- A chaining state and a buffer stand for the message `m`.
pub record Buffered (state : Eight) (buffer m : List ℕ) : Type 0 where
  pub whole : List (List ℕ)
  pub rest : List ℕ
  pub free : List ℕ
  pub shape : All IsBlock whole
  pub split : m ≡ concat whole ++ rest
  pub digest : state ≡ compress_all initial_state whole
  pub short : length rest < 64
  pub kept : buffer ≡ rest ++ free
  pub size : length buffer ≡ 64
  pub bytes : All IsByte rest

-- The context stands for the message `m`.
pub record Absorbed (ctx : Context) (m : List ℕ) : Type 0 where
  pub buffered : Buffered ctx.state ctx.buffer m
  pub low : ctx.total0 ≡ length m % 2 ^ 32
  pub high : ctx.total1 ≡ length m / 2 ^ 32 % 2 ^ 32
  pub sha256 : ctx.is224 ≡ 0

pub Buffered-IsEight : {state : Eight} {buffer m : List ℕ} → Buffered state buffer m → IsEight state
Buffered-IsEight b =
    let h = compress_all-IsEight initial_state b.whole initial-IsEight in rw b.digest h

-- The bytes that the blocks leave go behind what is in the buffer.
pub Buffered-rest :
    {state : Eight} {buffer m : List ℕ} (tail : List ℕ) (b : Buffered state buffer m)
    → length b.rest + length tail < 64
    → All IsByte tail
    → Buffered state (memcpy buffer (length b.rest) tail) (m ++ tail)
Buffered-rest {state} {buffer} {m} tail b fits hb = record {
  whole = b.whole;
  rest = b.rest ++ tail;
  free = drop (length tail) b.free;
  shape = b.shape;
  split = ap (λ t. t ++ tail) b.split ∙ append_assoc (concat b.whole) b.rest tail;
  digest = b.digest;
  short = omega (arith, length-append b.rest tail);
  kept =
      ap (λ t. memcpy t (length b.rest) tail) b.kept
      ∙ memcpy_lem (length b.rest) b.rest b.free tail refl
          (omega (arith, length-append b.rest b.free, ap length b.kept, b.size))
      ∙ sym (append_assoc b.rest tail (drop (length tail) b.free));
  size = length-memcpy buffer (length b.rest) tail ∙ b.size;
  bytes = All-append IsByte b.rest tail b.bytes hb;
}

-- Whole blocks after a message without a rest.
pub Buffered-blocks :
    {state state' : Eight} {buffer m : List ℕ} (used : List (List ℕ)) (b : Buffered state buffer m)
    → b.rest ≡ []
    → All IsBlock used
    → state' ≡ compress_all state used
    → (b' : Buffered state' buffer (m ++ concat used)) × (b'.rest ≡ [])
Buffered-blocks {buffer = buffer} {m} used b empty shape e = (
  record {
    whole = b.whole ++ used;
    rest = [];
    free = buffer;
    shape = All-append IsBlock b.whole used b.shape shape;
    split =
        ap (λ t. t ++ concat used)
          (b.split ∙ ap (λ t. concat b.whole ++ t) empty ∙ append-nil (concat b.whole))
        ∙ sym (concat-append b.whole used)
        ∙ sym (append-nil (concat (b.whole ++ used)));
    digest =
        e
        ∙ ap (λ t. compress_all t used) b.digest
        ∙ sym (compress_all-append initial_state b.whole used);
    short = omega arith;
    kept = refl;
    size = b.size;
    bytes = tt;
  },
  refl,
)

-- A full buffer becomes one more block.
pub Buffered-full :
    {state : Eight} {buffer m : List ℕ} (tail : List ℕ) (b : Buffered state buffer m)
    → length b.rest + length tail ≡ 64
    → All IsByte tail
    → (memcpy buffer (length b.rest) tail ≡ b.rest ++ tail)
      × (b' : Buffered (process state (b.rest ++ tail)) (b.rest ++ tail) (m ++ tail)) × (b'.rest
          ≡ [])
unfolding compress_all
Buffered-full {state} {buffer} {m} tail b full hb = (
  filled,
  record {
    whole = b.whole ++ ((b.rest ++ tail) ∷ []);
    rest = [];
    free = b.rest ++ tail;
    shape = All-append IsBlock b.whole _ b.shape ((length_full, bytes_full), tt);
    split =
        ap (λ t. t ++ tail) b.split
        ∙ append_assoc (concat b.whole) b.rest tail
        ∙ ap (λ t. concat b.whole ++ t) (sym (append-nil (b.rest ++ tail)))
        ∙ sym (concat-append b.whole ((b.rest ++ tail) ∷ []))
        ∙ sym (append-nil _);
    digest =
        process-compress state (b.rest ++ tail) (Buffered-IsEight b) bytes_full
        ∙ ap (λ t. compress t (b.rest ++ tail)) b.digest
        ∙ sym (compress_all-append initial_state b.whole ((b.rest ++ tail) ∷ []));
    short = omega arith;
    kept = refl;
    size = length_full;
    bytes = tt;
  },
  refl,
)
  where
    length_full : length (b.rest ++ tail) ≡ 64
    length_full = omega (arith, length-append b.rest tail)

    bytes_full : All IsByte (b.rest ++ tail)
    bytes_full = All-append IsByte b.rest tail b.bytes hb

    room : length b.free ≡ length tail
    room = omega (arith, length-append b.rest b.free, ap length b.kept, b.size)

    filled : memcpy buffer (length b.rest) tail ≡ b.rest ++ tail
    filled =
        ap (λ t. memcpy t (length b.rest) tail) b.kept
        ∙ memcpy_lem (length b.rest) b.rest b.free tail refl (omega (arith, room))
        ∙ ap (λ t. b.rest ++ (tail ++ t)) (drop_all (length tail) b.free (omega (arith, room)))
        ∙ ap (λ t. b.rest ++ t) (append-nil tail)
