-- ===== src/Sha256/Process.antt =====
-- `utils_sha256_process` of aiot_mqtt_sign.c, with the macros R and P.
use clink3_wiki.Prelude.{
  ℕ, zero, suc, ◌+◌, ◌-◌, ◌*◌, List, get_or, set, replicate, ltb, if◌then◌else◌,
}
use clink3_wiki.Sha256.Word.{◌⊞◌, get_uint32_be, s0, s1, s2, s3, f0, f1, round_constant}

-- `uint32_t A[8]` and `uint32_t state[8]`, by index.
pub record Eight : Type 0 where
  pub w0 : ℕ
  pub w1 : ℕ
  pub w2 : ℕ
  pub w3 : ℕ
  pub w4 : ℕ
  pub w5 : ℕ
  pub w6 : ℕ
  pub w7 : ℕ

-- R(t), the value that it stores into W[t]
unfoldable pub expand : List ℕ → ℕ → ℕ
expand w t =
    s1 (get_or w (t - 2) 0) ⊞ get_or w (t - 7) 0 ⊞ s0 (get_or w (t - 15) 0) ⊞ get_or w (t - 16) 0

-- P, which changes A[3] and A[7], and the rotation of the array after it
unfoldable pub step : Eight → ℕ → ℕ → Eight
step v x k =
    let temp1 = v.w7 ⊞ s3 v.w4 ⊞ f1 v.w4 v.w5 v.w6 ⊞ k ⊞ x in
    let temp2 = s2 v.w0 ⊞ f0 v.w0 v.w1 v.w2 in
    record {
      w0 = temp1 ⊞ temp2;
      w1 = v.w0;
      w2 = v.w1;
      w3 = v.w2;
      w4 = v.w3 ⊞ temp1;
      w5 = v.w4;
      w6 = v.w5;
      w7 = v.w6;
    }

-- The value stored into W[i] by round `i`
unfoldable pub word_of_round : List ℕ → List ℕ → ℕ → ℕ
word_of_round block w i = if ltb i 16 then get_uint32_be block (4 * i) else expand w i

-- The loop from round `i` on, with `left` rounds to go
unfoldable pub rounds_loop : List ℕ → ℕ → ℕ → List ℕ → Eight → Eight
rounds_loop block zero i w v = v
rounds_loop block (suc left) i w v =
    let w' = set w i (word_of_round block w i) in
    rounds_loop block left (i + 1) w' (step v (get_or w' i 0) (round_constant i))

-- `state[i] += A[i]` for the eight indices
unfoldable pub add_eight : Eight → Eight → Eight
add_eight s v = record {
  w0 = s.w0 ⊞ v.w0;
  w1 = s.w1 ⊞ v.w1;
  w2 = s.w2 ⊞ v.w2;
  w3 = s.w3 ⊞ v.w3;
  w4 = s.w4 ⊞ v.w4;
  w5 = s.w5 ⊞ v.w5;
  w6 = s.w6 ⊞ v.w6;
  w7 = s.w7 ⊞ v.w7;
}

-- The new `ctx->state`. W is not initialised in C; each word is written before it is read.
unfoldable pub process : Eight → List ℕ → Eight
unfolding rounds_loop word_of_round add_eight round_constant
process state block = add_eight state (rounds_loop block 64 0 (replicate 64 0) state)
