-- ===== src/Sha256/Stream.antt =====
-- The context of aiot_mqtt_sign.c and the functions on it, from `utils_sha256_init` to `utils_sha256`.
use Prim.Native.Nat.{bit_and, bit_or}
use clink3_wiki.Prelude.{
  ℕ, zero, suc, ◌-◌, ◌*◌, ◌/◌, ◌^◌, List, [], ◌∷◌, ◌++◌, Option, none, some, ◌&&◌, not, replicate,
  take, drop, ltb, leb, ◌==◌, if◌then◌else◌,
}
use clink3_wiki.Prelude.Words.{u32, be32}
use clink3_wiki.Prelude.Buffer.{memcpy}
use clink3_wiki.Sha256.Word.{◌⊞◌}
use clink3_wiki.Sha256.Process.{Eight, process}

-- `iot_sha256_context`: `total0` and `total1` are `total[0]` and `total[1]`.
pub record Context : Type 0 where
  pub total0 : ℕ
  pub total1 : ℕ
  pub state : Eight
  pub buffer : List ℕ
  pub is224 : ℕ

abbrev pub zero_eight : Eight
zero_eight = record { w0 = 0; w1 = 0; w2 = 0; w3 = 0; w4 = 0; w5 = 0; w6 = 0; w7 = 0 }

-- The `memset` of `utils_sha256_init`. The loop of `utils_sha256_zeroize`, which
-- `utils_sha256_free` calls, leaves the same bytes.
unfoldable pub init : Context → Context
init ctx = record { total0 = 0; total1 = 0; state = zero_eight; buffer = replicate 64 0; is224 = 0 }

-- `while (n--) *p++ = 0` over `n` bytes at `p`
unfoldable pub zeroize : List ℕ → ℕ → List ℕ
zeroize bytes zero = bytes
zeroize [] (suc n) = []
zeroize (b ∷ bytes) (suc n) = 0 ∷ zeroize bytes n

abbrev pub initial_state : Eight
initial_state = record {
  w0 = 0x6A09E667;
  w1 = 0xBB67AE85;
  w2 = 0x3C6EF372;
  w3 = 0xA54FF53A;
  w4 = 0x510E527F;
  w5 = 0x9B05688C;
  w6 = 0x1F83D9AB;
  w7 = 0x5BE0CD19;
}

-- The local `is224` is 0, so the branch is always taken.
unfoldable pub starts : Context → Context
starts ctx =
    let is224 : ℕ = 0 in
    record ctx {
      total0 = 0;
      total1 = 0;
      state = if is224 == 0 then initial_state else ctx.state;
      is224 = is224;
    }

-- `while (ilen >= 64)`: the context, what is left of the input, and `ilen`. Each round takes 64
-- from `ilen`, so `ilen` rounds of fuel are enough.
unfoldable pub blocks_loop : ℕ → Eight → List ℕ → ℕ → Eight × List ℕ × ℕ
blocks_loop zero state input ilen = (state, input, ilen)
blocks_loop (suc fuel) state input ilen =
    let rest = blocks_loop fuel (process state (take 64 input)) (drop 64 input) (ilen - 64) in
    if leb 64 ilen then rest else (state, input, ilen)

-- The end of `utils_sha256_update`: whole blocks, then what is left goes to the buffer.
unfoldable pub absorb_rest : Context → List ℕ → ℕ → ℕ → Context
absorb_rest ctx input ilen left =
    let (state, input', ilen') = blocks_loop ilen ctx.state input ilen in
    if ltb 0 ilen'
    then record ctx { state = state; buffer = memcpy ctx.buffer left (take ilen' input') }
    else record ctx { state = state }

-- The byte counter. The carry goes to `total[1]`.
unfoldable pub count_bytes : Context → ℕ → Context
count_bytes ctx ilen =
    let total0 = bit_and (ctx.total0 ⊞ ilen) 0xffff_ffff in
    record ctx { total0 = total0; total1 = if ltb total0 ilen then ctx.total1 ⊞ 1 else ctx.total1 }

unfoldable pub update : Context → List ℕ → ℕ → Context
update ctx input ilen =
    if ilen == 0
    then ctx
    else let left = bit_and ctx.total0 0x3f in
      let fill = 64 - left in
      let counted = count_bytes ctx ilen in
      if not (left == 0) && leb fill ilen
      then (let buffer = memcpy counted.buffer left (take fill input) in
          absorb_rest (record counted { buffer = buffer; state = process counted.state buffer })
            (drop fill input) (ilen - fill) 0)
      else absorb_rest counted input ilen left

abbrev pub sha256_padding : List ℕ
sha256_padding = 0x80 ∷ replicate 63 0

unfoldable pub padding_length : ℕ → ℕ
padding_length last = if ltb last 56 then 56 - last else 120 - last

-- `msglen`: the count of bits as eight bytes
unfoldable pub message_length : ℕ → ℕ → List ℕ
message_length total0 total1 =
    let high = bit_or (total0 / 2 ^ 29) (u32 (total1 * 2 ^ 3)) in
    let low = u32 (total0 * 2 ^ 3) in be32 high ++ be32 low

-- The bytes that the eight PUT_UINT32_BE store. With `is224` set the last four stay as they were.
unfoldable pub put_digest : Eight → ℕ → List ℕ → List ℕ
put_digest s is224 output =
    be32 s.w0
    ++ (be32 s.w1
        ++ (be32 s.w2
            ++ (be32 s.w3
                ++ (be32 s.w4
                    ++ (be32 s.w5
                        ++ (be32 s.w6
                            ++ (if is224 == 0 then be32 s.w7 else take 4 (drop 28 output))))))))

-- The context after `utils_sha256_finish` and the 32 bytes of `output`
unfoldable pub finish : Context → List ℕ → Context × List ℕ
unfolding padding_length message_length put_digest
finish ctx output =
    let msglen = message_length ctx.total0 ctx.total1 in
    let padn = padding_length (bit_and ctx.total0 0x3f) in
    let padded = update ctx sha256_padding padn in
    let done = update padded msglen 8 in (done, put_digest done.state done.is224 output)

-- `utils_sha256_free`; the zeroed context is the one that `utils_sha256_init` makes.
unfoldable pub free : Option Context → Option Context
unfolding init
free none = none
free (some ctx) = some (init ctx)

-- `utils_sha256`, from what the stack variable `ctx` and `output` held
unfoldable pub sha256 : Context → List ℕ → ℕ → List ℕ → Option Context × List ℕ
sha256 ctx input ilen output =
    let (done, digest) = finish (update (starts (init ctx)) input ilen) output in
    (free (some done), digest)
