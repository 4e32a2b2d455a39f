-- ===== src/Sha256/Update.antt =====
-- `utils_sha256_update` appends its input to the message that the context stands for.
use Prim.Native.Nat.{bit_and}
use clink3_wiki.Prelude.{
  ℕ, zero, suc, ◌+◌, ◌-◌, ◌/◌, ◌%◌, ◌^◌, ◌≤◌, ◌<◌, ◌≡◌, refl, ap, subst, subst₂, ◌∙◌, sym, List, [],
  ◌++◌, arith, All, All-take, All-drop, length, length-append, length-take, length-drop, take, drop,
  take-add, append_assoc, append-nil, nil_of_length, false, Bool-cases, inl, inr, ltb, leb, ◌==◌,
  if◌then◌else◌, not, ◌&&◌, lt→leb, lt→ltb,
}
use clink3_wiki.Prelude.Words.{IsByte}
use clink3_wiki.Prelude.Buffer.{memcpy}
use clink3_wiki.Prelude.Bits.{bit_and_mask}
use clink3_wiki.Sha256.Word.{◌⊞◌}
use clink3_wiki.Sha256.Process.{Eight, process}
use clink3_wiki.Sha256.Stream.{Context, blocks_loop, absorb_rest, count_bytes, update}
use clink3_wiki.Sha256.Blocks.{concat, length-concat, Looped, blocks_loop-Looped}
use clink3_wiki.Sha256.Absorb.{
  Buffered, Absorbed, Buffered-IsEight, Buffered-rest, Buffered-blocks, Buffered-full,
}

blocks_loop-short :
    (fuel : ℕ) (state : Eight) (input : List ℕ) (ilen : ℕ)
    → ilen < 64
    → blocks_loop fuel state input ilen ≡ (state, input, ilen)
unfolding blocks_loop
blocks_loop-short zero state input ilen h = refl
blocks_loop-short (suc fuel) state input ilen h = rw (lt→leb 64 ilen h)

-- The context after a step that took it to the message `m`, the counter apart.
record Stored (ctx r : Context) (m : List ℕ) : Type 0 where
  buffered : Buffered r.state r.buffer m
  total0 : r.total0 ≡ ctx.total0
  total1 : r.total1 ≡ ctx.total1
  is224 : r.is224 ≡ ctx.is224

absorb_rest-short :
    (ctx : Context) (input m : List ℕ) (ilen : ℕ) (b : Buffered ctx.state ctx.buffer m)
    → 0 < ilen
    → ilen ≤ length input
    → length b.rest + ilen < 64
    → All IsByte input
    → Stored ctx (absorb_rest ctx input ilen (length b.rest)) (m ++ take ilen input)
unfolding absorb_rest
absorb_rest-short ctx input m (suc n) b pos hl fits hb =
    rw
      (
        blocks_loop-short (suc n) ctx.state input (suc n) (omega arith),
        lt→ltb 0 (suc n) (omega arith),
      )
      (record {
        buffered =
            Buffered-rest (take (suc n) input) b (omega (arith, length-take (suc n) input))
              (All-take IsByte (suc n) input hb);
        total0 = refl;
        total1 = refl;
        is224 = refl;
      })
absorb_rest-short ctx input m zero b pos hl fits hb = absurd (omega arith)

-- `absorb_rest` where the message has no rest, from what the loop returned
absorb_aligned :
    (ctx : Context) (input m : List ℕ) (ilen : ℕ) (b : Buffered ctx.state ctx.buffer m)
    (r : Eight × List ℕ × ℕ)
    → b.rest ≡ []
    → Looped ctx.state input ilen r
    → Stored ctx
        (if ltb 0 r.2
          then record ctx { state = r.0; buffer = memcpy ctx.buffer 0 (take r.2 r.1) }
          else record ctx { state = r.0 })
        (m ++ take ilen input)
absorb_aligned ctx input m ilen b r empty l = elim (Bool-cases (ltb 0 r.2)) [
  | inl more ↦ rw more (record { buffered = with_tail; total0 = refl; total1 = refl; is224 = refl })
  | inr done ↦ rw done (record {
    buffered = subst (Buffered r.0 ctx.buffer) (sym (whole_split ∙ no_tail done)) blocks_in.0;
    total0 = refl;
    total1 = refl;
    is224 = refl;
  })
]
  where
    blocks_in : (b' : Buffered r.0 ctx.buffer (m ++ concat l.used)) × (b'.rest ≡ [])
    blocks_in = Buffered-blocks l.used b empty l.shape l.digest

    whole_split : m ++ take ilen input ≡ (m ++ concat l.used) ++ take r.2 r.1
    whole_split = ap (λ t. m ++ t) l.split ∙ sym (append_assoc m (concat l.used) (take r.2 r.1))

    no_tail : ltb 0 r.2 ≡ false → (m ++ concat l.used) ++ take r.2 r.1 ≡ m ++ concat l.used
    no_tail done =
        let none_left : r.2 ≡ 0 = ground arith in rw none_left (append-nil (m ++ concat l.used))

    at_start : length blocks_in.0.rest ≡ 0
    at_start = ap length blocks_in.1

    with_tail : Buffered r.0 (memcpy ctx.buffer 0 (take r.2 r.1)) (m ++ take ilen input)
    with_tail =
        subst₂ (λ n t. Buffered r.0 (memcpy ctx.buffer n (take r.2 r.1)) t) at_start
          (sym whole_split)
          (Buffered-rest (take r.2 r.1) blocks_in.0
            (omega (arith, length-take r.2 r.1, at_start, l.short))
            (All-take IsByte r.2 r.1 l.bytes))

absorb_rest-aligned :
    (ctx : Context) (input m : List ℕ) (ilen : ℕ) (b : Buffered ctx.state ctx.buffer m)
    → b.rest ≡ []
    → ilen ≤ length input
    → All IsByte input
    → Stored ctx (absorb_rest ctx input ilen 0) (m ++ take ilen input)
unfolding absorb_rest
absorb_rest-aligned ctx input m ilen b empty hl hb =
    absorb_aligned ctx input m ilen b (blocks_loop ilen ctx.state input ilen) empty
      (blocks_loop-Looped ilen ctx.state input ilen (omega arith) hl hb (Buffered-IsEight b))

-- The part of `update` after the count, by its three branches.
abbrev store : Context → List ℕ → ℕ → ℕ → Context
store ctx input ilen left =
    let fill = 64 - left in
    if not (left == 0) && leb fill ilen
    then (let buffer = memcpy ctx.buffer left (take fill input) in
        absorb_rest (record ctx { buffer = buffer; state = process ctx.state buffer })
          (drop fill input) (ilen - fill) 0)
    else absorb_rest ctx input ilen left

-- The branch in which the input fills the buffer.
store_full :
    (ctx : Context) (input m : List ℕ) (ilen : ℕ) (b : Buffered ctx.state ctx.buffer m)
    → 64 - length b.rest ≤ ilen
    → ilen ≤ length input
    → All IsByte input
    → let fill = 64 - length b.rest in
      let buffer = memcpy ctx.buffer (length b.rest) (take fill input) in
      Stored ctx
        (absorb_rest
          (record ctx { buffer = buffer; state = process ctx.state buffer })
          (drop fill input)
          (ilen - fill)
          0)
        (m ++ take ilen input)
store_full ctx input m ilen b fills hl hb =
    let fill = 64 - length b.rest in
    let (filled, b', empty) =
      Buffered-full (take fill input) b
        (omega (arith, length-take (64 - length b.rest) input, b.short))
        (All-take IsByte fill input hb) in
    let ctx' = record ctx {
      buffer = b.rest ++ take fill input;
      state = process ctx.state (b.rest ++ take fill input);
    } in
    let s =
      absorb_rest-aligned ctx' (drop fill input) (m ++ take fill input) (ilen - fill) b' empty
        (omega (arith, length-drop (64 - length b.rest) input)) (All-drop IsByte fill input hb) in
    rw filled (record {
      buffered = subst (Buffered _ _) (message fill fills) s.buffered;
      total0 = s.total0;
      total1 = s.total1;
      is224 = s.is224;
    })
  where
    message :
        (fill : ℕ)
        → fill ≤ ilen
        → (m ++ take fill input) ++ take (ilen - fill) (drop fill input) ≡ m ++ take ilen input
    message fill h =
        let e : ilen ≡ fill + (ilen - fill) = omega arith in
        append_assoc m (take fill input) (take (ilen - fill) (drop fill input))
        ∙ ap (λ t. m ++ t) (sym (ap (λ k. take k input) e ∙ take-add fill (ilen - fill) input))

store-Stored :
    (ctx : Context) (input m : List ℕ) (ilen : ℕ) (b : Buffered ctx.state ctx.buffer m)
    → 0 < ilen
    → ilen ≤ length input
    → All IsByte input
    → Stored ctx (store ctx input ilen (length b.rest)) (m ++ take ilen input)
store-Stored ctx input m ilen b pos hl hb = elim (Bool-cases (length b.rest == 0)) [
  | inl none_left ↦
      let empty : length b.rest ≡ 0 = ground arith in
      rw (none_left, empty)
        (absorb_rest-aligned ctx input m ilen b (nil_of_length b.rest empty) hl hb)
  | inr some_left ↦ elim (Bool-cases (leb (64 - length b.rest) ilen)) [
    | inl fills ↦ rw (some_left, fills) (store_full ctx input m ilen b (ground arith) hl hb)
    | inr fits ↦
        rw (some_left, fits) (absorb_rest-short ctx input m ilen b pos hl (ground arith) hb)
  ]
]

count_lem :
    (ctx : Context) (n ilen : ℕ)
    → ilen < 2 ^ 32
    → ctx.total0 ≡ n % 2 ^ 32
    → ctx.total1 ≡ n / 2 ^ 32 % 2 ^ 32
    → ((count_bytes ctx ilen).total0 ≡ (n + ilen) % 2 ^ 32)
      × ((count_bytes ctx ilen).total1 ≡ (n + ilen) / 2 ^ 32 % 2 ^ 32)
unfolding count_bytes
count_lem ctx n ilen small low high =
    rw (bit_and_mask 32 (ctx.total0 ⊞ ilen)) (ground arith, ground arith)

left_of_rest :
    (ctx : Context) (m : List ℕ) (a : Absorbed ctx m)
    → bit_and ctx.total0 0x3f ≡ length a.buffered.rest
left_of_rest ctx m a =
    let b = a.buffered in
    bit_and_mask 6 ctx.total0
    ∙ omega (
      arith,
      a.low,
      ap length b.split,
      length-append (concat b.whole) b.rest,
      length-concat b.whole b.shape,
      b.short,
    )

Absorbed-of_Stored :
    (ctx : Context) (m tail : List ℕ) (ilen : ℕ) (r : Context)
    → Absorbed ctx m
    → length tail ≡ ilen
    → ilen < 2 ^ 32
    → Stored (count_bytes ctx ilen) r (m ++ tail)
    → Absorbed r (m ++ tail)
Absorbed-of_Stored ctx m tail ilen r a len small s =
    let counted = count_lem ctx (length m) ilen small a.low a.high in
    record {
      buffered = s.buffered;
      low = s.total0 ∙ counted.0 ∙ ap (λ k. k % 2 ^ 32) total;
      high = s.total1 ∙ counted.1 ∙ ap (λ k. k / 2 ^ 32 % 2 ^ 32) total;
      sha256 = s.is224 ∙ (unfold count_bytes in a.sha256);
    }
  where
    total : length m + ilen ≡ length (m ++ tail)
    total = omega (arith, length-append m tail)

counted_buffer :
    (ctx : Context) (m : List ℕ) (ilen : ℕ)
    → Absorbed ctx m
    → Buffered (count_bytes ctx ilen).state (count_bytes ctx ilen).buffer m
unfolding count_bytes
counted_buffer ctx m ilen a = a.buffered

-- What `update` does with a context that stands for `m`: it stands for `m` and the first `ilen`
-- bytes of the input. A call that fills the buffer, runs over whole blocks or carries into
-- `total[1]` is no exception.
pub update-Absorbed :
    (ctx : Context) (m input : List ℕ) (ilen : ℕ)
    → Absorbed ctx m
    → All IsByte input
    → ilen ≤ length input
    → ilen < 2 ^ 32
    → Absorbed (update ctx input ilen) (m ++ take ilen input)
unfolding update counted_buffer
update-Absorbed ctx m input ilen a hb hl small = elim (Bool-cases (ilen == 0)) [
  | inl none_given ↦ let e : ilen ≡ 0 = ground arith in rw (none_given, e) (rw append-nil a)
  | inr given ↦
      rw (given, left_of_rest ctx m a)
        (Absorbed-of_Stored ctx m (take ilen input) ilen
          (store (count_bytes ctx ilen) input ilen (length a.buffered.rest)) a
          (omega (arith, length-take ilen input)) small
          (store-Stored (count_bytes ctx ilen) input m ilen (counted_buffer ctx m ilen a)
            (ground arith) hl hb))
]
