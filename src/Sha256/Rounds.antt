-- ===== src/Sha256/Rounds.antt =====
-- `utils_sha256_process` computes the compression function of FIPS 180-4.
use clink3_wiki.Prelude.{
  ℕ, zero, suc, ◌+◌, ◌-◌, ◌≤◌, ◌≡◌, refl, ap, ◌∙◌, sym, List, [], ◌∷◌, ◌++◌, arith, All, All-append,
  length, length-append, get_or, get_or-prefix, get_or-append, set, set-append, replicate,
  append_assoc, length-replicate, ltb, Bool-cases, inl, inr, le→ltb,
}
use clink3_wiki.Prelude.Words.{u32, IsWord, IsByte}
use clink3_wiki.Sha256.Word.{round_constant, ◌⊞◌}
use clink3_wiki.Sha256.Process.{Eight, expand, step, word_of_round, rounds_loop, add_eight, process}
use clink3_wiki.Sha256.Spec.{next_word, words_after, schedule, round, rounds, compress}
use clink3_wiki.Sha256.Macros.{
  s0_lem, s1_lem, s2_lem, s3_lem, f0_lem, f1_lem, get_uint32_be_lem, block_word-IsWord,
}

-- Eight machine words
pub record IsEight (v : Eight) : Type 0 where
  pub w0 : IsWord v.w0
  pub w1 : IsWord v.w1
  pub w2 : IsWord v.w2
  pub w3 : IsWord v.w3
  pub w4 : IsWord v.w4
  pub w5 : IsWord v.w5
  pub w6 : IsWord v.w6
  pub w7 : IsWord v.w7

get_or-IsWord : (ws : List ℕ) (i : ℕ) → All IsWord ws → IsWord (get_or ws i 0)
get_or-IsWord [] i h = omega arith
get_or-IsWord (w ∷ ws) zero h = h.0
get_or-IsWord (w ∷ ws) (suc i) h = get_or-IsWord ws i h.1

sum_of_four : {a c a' c' : ℕ} (b d : ℕ) → a ≡ a' → c ≡ c' → a ⊞ b ⊞ c ⊞ d ≡ u32 (a' + b + c' + d)
sum_of_four b d p q = omega arith

expand_lem :
    (block ws rest : List ℕ)
    → All IsWord ws
    → 16 ≤ length ws
    → expand (ws ++ rest) (length ws) ≡ next_word block ws
unfolding expand next_word
expand_lem block ws rest h long =
    rw
      (
        le→ltb (length ws) 16 long,
        get_or-prefix (length ws - 2) ws rest 0 (omega arith),
        get_or-prefix (length ws - 7) ws rest 0 (omega arith),
        get_or-prefix (length ws - 15) ws rest 0 (omega arith),
        get_or-prefix (length ws - 16) ws rest 0 (omega arith),
      )
      (sum_of_four _ _ (s1_lem _ (get_or-IsWord ws _ h)) (s0_lem _ (get_or-IsWord ws _ h)))

word_of_round_lem :
    (block ws rest : List ℕ)
    → All IsByte block
    → All IsWord ws
    → word_of_round block (ws ++ rest) (length ws) ≡ next_word block ws
unfolding word_of_round
word_of_round_lem block ws rest hb hw = elim (Bool-cases (ltb (length ws) 16)) [
  | inl early ↦ rw early (get_uint32_be_lem block (length ws) hb ∙ unfold next_word in rw early)
  | inr late ↦ rw late (expand_lem block ws rest hw (ground arith))
]

next_word-IsWord : (block ws : List ℕ) → All IsByte block → IsWord (next_word block ws)
unfolding next_word
next_word-IsWord block ws h = elim (Bool-cases (ltb (length ws) 16)) [
  | inl early ↦ rw early (block_word-IsWord block (length ws) h)
  | inr late ↦ rw late (omega arith)
]

record Same (v v' : Eight) : Type 0 where
  w0 : v.w0 ≡ v'.w0
  w1 : v.w1 ≡ v'.w1
  w2 : v.w2 ≡ v'.w2
  w3 : v.w3 ≡ v'.w3
  w4 : v.w4 ≡ v'.w4
  w5 : v.w5 ≡ v'.w5
  w6 : v.w6 ≡ v'.w6
  w7 : v.w7 ≡ v'.w7

eq_of_Same : {v v' : Eight} → Same v v' → v ≡ v'
eq_of_Same s = λ i. record {
  w0 = s.w0 i;
  w1 = s.w1 i;
  w2 = s.w2 i;
  w3 = s.w3 i;
  w4 = s.w4 i;
  w5 = s.w5 i;
  w6 = s.w6 i;
  w7 = s.w7 i;
}

-- One round of the loop is one round of the standard.
pub step-round : (v : Eight) (w k : ℕ) → IsEight v → step v w k ≡ round v w k
unfolding step round
step-round v w k h = eq_of_Same (record {
  w0 =
      rw
        (s3_lem v.w4 h.w4, f1_lem v.w4 v.w5 v.w6 h.w4 h.w6, s2_lem v.w0 h.w0, f0_lem v.w0 v.w1 v.w2)
        (omega arith);
  w1 = refl;
  w2 = refl;
  w3 = refl;
  w4 = rw (s3_lem v.w4 h.w4, f1_lem v.w4 v.w5 v.w6 h.w4 h.w6) (omega arith);
  w5 = refl;
  w6 = refl;
  w7 = refl;
})

step-IsEight : (v : Eight) (w k : ℕ) → IsEight v → IsEight (step v w k)
unfolding step
step-IsEight v w k h = omega arith

rounds_loop_lem :
    (block : List ℕ)
    → All IsByte block
    → (left i : ℕ) (ws rest : List ℕ) (v : Eight) → i ≡ length ws
    → length rest ≡ left
    → All IsWord ws
    → IsEight v
    → rounds_loop block left i (ws ++ rest) v ≡ rounds i (words_after block left ws) v
unfolding rounds_loop words_after rounds
rounds_loop_lem block hb zero i ws rest v ei el hw hv = refl
rounds_loop_lem block hb (suc left) i ws [] v ei el hw hv = absurd (omega arith)
rounds_loop_lem block hb (suc left) i ws (y ∷ ys) v ei el hw hv =
    let w = next_word block ws in
    let stored : set (ws ++ y ∷ ys) i (word_of_round block (ws ++ y ∷ ys) i) ≡ ws ++ w ∷ ys =
      set-append i ws y _ ys ei
      ∙ ap (λ t. ws ++ t ∷ ys) (rw ei (word_of_round_lem block ws (y ∷ ys) hb hw)) in
    rw (stored, get_or-append i ws w 0 ys ei, step-round v w (round_constant i) hv)
      (ap (λ t. rounds_loop block left (i + 1) t (round v w (round_constant i)))
          (sym (append_assoc ws (w ∷ []) ys))
        ∙ rounds_loop_lem block hb left (i + 1) (ws ++ w ∷ []) ys (round v w (round_constant i))
            (omega (arith, length-append ws (w ∷ []))) (omega arith)
            (All-append IsWord ws (w ∷ []) hw (next_word-IsWord block ws hb, tt))
            (rw (← step-round v w (round_constant i) hv) (step-IsEight v w (round_constant i) hv)))

-- On a block of bytes and a state of words the code computes the standard's compression function.
pub process-compress :
    (state : Eight) (block : List ℕ)
    → IsEight state
    → All IsByte block
    → process state block ≡ compress state block
unfolding process compress schedule add_eight
process-compress state block hs hb = ap (add_eight state) (
    rounds_loop_lem block hb 64 0 [] (replicate 64 0) state refl (length-replicate {A = ℕ} 64 0) tt
      hs)

u32-IsWord : (n : ℕ) → IsWord (u32 n)
u32-IsWord n = omega arith

pub compress-IsEight : (h : Eight) (block : List ℕ) → IsEight (compress h block)
unfolding compress
compress-IsEight h block =
    let v = rounds 0 (schedule block) h in
    record {
      w0 = u32-IsWord (h.w0 + v.w0);
      w1 = u32-IsWord (h.w1 + v.w1);
      w2 = u32-IsWord (h.w2 + v.w2);
      w3 = u32-IsWord (h.w3 + v.w3);
      w4 = u32-IsWord (h.w4 + v.w4);
      w5 = u32-IsWord (h.w5 + v.w5);
      w6 = u32-IsWord (h.w6 + v.w6);
      w7 = u32-IsWord (h.w7 + v.w7);
    }
