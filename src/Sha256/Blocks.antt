-- ===== src/Sha256/Blocks.antt =====
-- The loop of `utils_sha256_update` over whole blocks, and sequences of blocks.
use clink3_wiki.Prelude.{
  ℕ, zero, suc, ◌-◌, ◌*◌, ◌≤◌, ◌<◌, ◌≡◌, refl, ap, ◌∙◌, sym, List, [], ◌∷◌, ◌++◌, arith, All,
  All-take, All-drop, length, length-append, length-take, length-drop, take, drop, take-add,
  append_assoc, Bool-cases, inl, inr, leb,
}
use clink3_wiki.Prelude.Words.{IsByte}
use clink3_wiki.Sha256.Process.{Eight, process}
use clink3_wiki.Sha256.Stream.{blocks_loop}
use clink3_wiki.Sha256.Spec.{compress, compress_all}
use clink3_wiki.Sha256.Rounds.{IsEight, process-compress, compress-IsEight}

abbrev pub concat : List (List ℕ) → List ℕ
concat [] = []
concat (b ∷ bs) = b ++ concat bs

abbrev pub IsBlock : List ℕ → Type 0
IsBlock b = (length b ≡ 64) × All IsByte b

pub concat-append : (front bs : List (List ℕ)) → concat (front ++ bs) ≡ concat front ++ concat bs
concat-append [] bs = refl
concat-append (a ∷ front) bs =
    ap (λ t. a ++ t) (concat-append front bs) ∙ sym (append_assoc a (concat front) (concat bs))

pub length-concat : (bs : List (List ℕ)) → All IsBlock bs → length (concat bs) ≡ 64 * length bs
length-concat [] h = omega arith
length-concat (b ∷ bs) h = omega (arith, length-append b (concat bs), length-concat bs h.1, h.0.0)

pub compress_all-append :
    (h : Eight) (front bs : List (List ℕ))
    → compress_all h (front ++ bs) ≡ compress_all (compress_all h front) bs
unfolding compress_all
compress_all-append h [] bs = refl
compress_all-append h (a ∷ front) bs = compress_all-append (compress h a) front bs

pub compress_all-IsEight :
    (h : Eight) (bs : List (List ℕ)) → IsEight h → IsEight (compress_all h bs)
unfolding compress_all
compress_all-IsEight h [] e = e
compress_all-IsEight h (b ∷ bs) e = compress_all-IsEight (compress h b) bs (compress-IsEight h b)

-- The result of the loop over whole blocks: it consumed `used`, and fewer than 64 bytes are left.
pub record Looped (state : Eight) (input : List ℕ) (ilen : ℕ) (r : Eight × List ℕ × ℕ)
    : Type 0 where
  pub used : List (List ℕ)
  pub shape : All IsBlock used
  pub digest : r.0 ≡ compress_all state used
  pub split : take ilen input ≡ concat used ++ take r.2 r.1
  pub short : r.2 < 64
  pub inside : r.2 ≤ length r.1
  pub bytes : All IsByte r.1

-- One more block before what the loop did.
Looped-cons :
    (state : Eight) (input : List ℕ) (ilen : ℕ) (r : Eight × List ℕ × ℕ)
    → ilen ≤ length input
    → All IsByte input
    → IsEight state
    → 64 ≤ ilen
    → Looped (process state (take 64 input)) (drop 64 input) (ilen - 64) r
    → Looped state input ilen r
unfolding compress_all
Looped-cons state input ilen r hl hb hs long rest = record {
  used = take 64 input ∷ rest.used;
  shape = ((omega (arith, length-take 64 input), All-take IsByte 64 input hb), rest.shape);
  digest =
      rest.digest
      ∙ ap (λ h. compress_all h rest.used)
          (process-compress state (take 64 input) hs (All-take IsByte 64 input hb));
  split =
      ap (λ n. take n input) (omega arith)
      ∙ take-add 64 (ilen - 64) input
      ∙ ap (λ t. take 64 input ++ t) rest.split
      ∙ sym (append_assoc (take 64 input) (concat rest.used) (take r.2 r.1));
  short = rest.short;
  inside = rest.inside;
  bytes = rest.bytes;
}

pub blocks_loop-Looped :
    (fuel : ℕ) (state : Eight) (input : List ℕ) (ilen : ℕ)
    → ilen ≤ fuel
    → ilen ≤ length input
    → All IsByte input
    → IsEight state
    → Looped state input ilen (blocks_loop fuel state input ilen)
unfolding blocks_loop compress_all
blocks_loop-Looped zero state input ilen hf hl hb hs = record {
  used = [];
  shape = tt;
  digest = refl;
  split = refl;
  short = omega arith;
  inside = hl;
  bytes = hb;
}
blocks_loop-Looped (suc fuel) state input ilen hf hl hb hs = elim (Bool-cases (leb 64 ilen)) [
  | inl more ↦
      let rest =
        blocks_loop-Looped fuel (process state (take 64 input)) (drop 64 input) (ilen - 64)
          (ground arith) (omega (arith, length-drop 64 input)) (All-drop IsByte 64 input hb)
          (rw (process-compress state (take 64 input) hs (All-take IsByte 64 input hb))
            (compress-IsEight state (take 64 input))) in
      rw more (Looped-cons state input ilen _ hl hb hs (ground arith) rest)
  | inr done ↦ rw done (record {
    used = [];
    shape = tt;
    digest = refl;
    split = refl;
    short = ground arith;
    inside = hl;
    bytes = hb;
  })
]
