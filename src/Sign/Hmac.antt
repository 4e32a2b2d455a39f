-- ===== src/Sign/Hmac.antt =====
-- `utils_hmac_sha256` of aiot_mqtt_sign.c is HMAC (RFC 2104) over SHA-256.
use Prim.Native.Nat.{bit_xor}
use clink3_wiki.Prelude.{
  ℕ, ◌-◌, ◌≤◌, ◌<◌, ◌^◌, ◌≡◌, refl, ap, ap₂, ◌∙◌, sym, subst, List, [], ◌∷◌, ◌++◌, map, Option,
  none, some, ltb, le→ltb, lt→ltb, if◌then◌else◌, arith, All, All-append, All-take, All-replicate,
  length, length-append, length-map, length-replicate, length-take, replicate, take, take_all,
}
use clink3_wiki.Prelude.Words.{IsByte}
use clink3_wiki.Prelude.Bits.{bit_xor-lt}
use clink3_wiki.Prelude.Buffer.{memcpy, memcpy-start, drop-replicate}
use clink3_wiki.Sha256.Process.{Eight}
use clink3_wiki.Sha256.Stream.{Context, init, starts, update, finish}
use clink3_wiki.Sha256.Spec.{hash, digest}
use clink3_wiki.Sha256.Absorb.{Absorbed}
use clink3_wiki.Sha256.Update.{update-Absorbed}
use clink3_wiki.Sha256.Digest.{starts-Absorbed, finish-hash}

-- SHA256_KEY_IOPAD_SIZE
abbrev pub key_iopad_size : ℕ
key_iopad_size = 64

-- `k_ipad` or `k_opad`: zeroed, the key copied in, each byte combined with the constant
unfoldable pub key_pad : List ℕ → ℕ → ℕ → List ℕ
key_pad key key_len constant =
    map (λ b. bit_xor b constant) (memcpy (replicate key_iopad_size 0) 0 (take key_len key))

-- One pass over `first` and then the `len` bytes at `second`
unfoldable pub pass : Context → List ℕ → List ℕ → ℕ → List ℕ → List ℕ
pass ctx first second len output =
    let started = update (starts (init ctx)) first key_iopad_size in
    (finish (update started second len) output).1

-- What `output` points to afterwards. `none` is the null pointer; `context` is not initialised.
unfoldable pub hmac_sha256 :
    Context → Option (List ℕ) → ℕ → Option (List ℕ) → ℕ → Option (List ℕ) → Option (List ℕ)
hmac_sha256 context none msg_len key key_len output = output
hmac_sha256 context (some msg) msg_len none key_len output = output
hmac_sha256 context (some msg) msg_len (some key) key_len none = none
hmac_sha256 context (some msg) msg_len (some key) key_len (some output) =
    if ltb key_iopad_size key_len
    then some output
    else (let inner = pass context (key_pad key key_len 0x36) msg msg_len output in
        some (pass context (key_pad key key_len 0x5c) inner 32 inner))

-- RFC 2104, for keys of at most a block
abbrev pub hmac : List ℕ → List ℕ → List ℕ
hmac key msg =
    let padded = key ++ replicate (64 - length key) 0 in
    hash (map (λ b. bit_xor b 0x5c) padded ++ hash (map (λ b. bit_xor b 0x36) padded ++ msg))

digest-bytes : (s : Eight) → All IsByte (digest s)
digest-bytes s = omega arith

pub hash-bytes : (m : List ℕ) → All IsByte (hash m) × (length (hash m) ≡ 32)
unfolding hash
hash-bytes m = (digest-bytes _, refl)

key_pad_lem :
    (key : List ℕ) (key_len constant : ℕ)
    → key_len ≤ 64
    → key_len ≤ length key
    → key_pad key key_len constant
      ≡ map
          (λ b. bit_xor b constant)
          (take key_len key ++ replicate (64 - length (take key_len key)) 0)
unfolding key_pad
key_pad_lem key key_len constant small fits = ap (map (λ b. bit_xor b constant)) (
    memcpy-start (replicate 64 0) (take key_len key)
      (omega (arith, length-take key_len key, length-replicate {A = ℕ} 64 0))
    ∙ ap (λ t. take key_len key ++ t) (drop-replicate (length (take key_len key)) 64))

xor-bytes :
    (c : ℕ) → IsByte c → (xs : List ℕ) → All IsByte xs → All IsByte (map (λ b. bit_xor b c) xs)
xor-bytes c hc [] h = tt
xor-bytes c hc (x ∷ xs) h = (bit_xor-lt 8 x c h.0 hc, xor-bytes c hc xs h.1)

pad-shape :
    (key : List ℕ) (c : ℕ)
    → IsByte c
    → All IsByte key
    → length key ≤ 64
    → let p = map (λ b. bit_xor b c) (key ++ replicate (64 - length key) 0) in
      All IsByte p × (length p ≡ 64)
pad-shape key c hc hb small = (
  xor-bytes c hc _
      (All-append IsByte key _ hb (All-replicate IsByte (64 - length key) 0 (omega arith))),
  length-map (λ b. bit_xor b c) (key ++ replicate (64 - length key) 0)
      ∙ length-append key (replicate (64 - length key) 0)
      ∙ omega (arith, length-replicate {A = ℕ} (64 - length key) 0),
)

pass-hash :
    (ctx : Context) (first second output : List ℕ) (len : ℕ)
    → All IsByte first × (length first ≡ 64)
    → All IsByte second
    → len ≤ length second
    → len < 2 ^ 32
    → pass ctx first second len output ≡ hash (first ++ take len second)
unfolding pass
pass-hash ctx first second output len hf hs hl small =
    let started =
      update-Absorbed (starts (init ctx)) [] first 64 (starts-Absorbed ctx) hf.0
        (omega (arith, hf.1)) (omega arith) in
    let whole : take 64 first ≡ first = take_all 64 first (omega (arith, hf.1)) in
    finish-hash (update (update (starts (init ctx)) first 64) second len) (first ++ take len second)
      output
      (update-Absorbed (update (starts (init ctx)) first 64) first second len
        (subst (Absorbed _) whole started) hs hl small)
      (omega (arith, length-append first (take len second), length-take len second, hf.1))

-- With a key of at most 64 bytes the code returns the HMAC of the message, whatever `output` and
-- the stack variable held. The second pass reads and then overwrites `output`.
pub hmac_sha256-hmac :
    (context : Context) (msg key output : List ℕ) (msg_len key_len : ℕ)
    → All IsByte msg
    → All IsByte key
    → msg_len ≤ length msg
    → key_len ≤ length key
    → msg_len < 2 ^ 32
    → key_len ≤ 64
    → hmac_sha256 context (some msg) msg_len (some key) key_len (some output)
      ≡ some (hmac (take key_len key) (take msg_len msg))
unfolding hmac_sha256
hmac_sha256-hmac context msg key output msg_len key_len hm hk fm fk small short =
    rw (le→ltb 64 key_len short) (
      ap some (
        ap (λ t. pass context (key_pad key key_len 0x5c) t 32 t) inner
        ∙ outer_pass
        ∙ ap₂ (λ a b. hash (a ++ hash (b ++ take msg_len msg))) (padded 0x5c) (padded 0x36)))
  where
    padded :
        (c : ℕ)
        → key_pad key key_len c
          ≡ map
              (λ b. bit_xor b c)
              (take key_len key ++ replicate (64 - length (take key_len key)) 0)
    padded c = key_pad_lem key key_len c short fk

    shape :
        (c : ℕ)
        → IsByte c
        → All IsByte (key_pad key key_len c) × (length (key_pad key key_len c) ≡ 64)
    shape c hc =
        subst (λ p. All IsByte p × (length p ≡ 64)) (sym (padded c))
          (pad-shape (take key_len key) c hc (All-take IsByte key_len key hk)
            (omega (arith, length-take key_len key)))

    first : List ℕ
    first = hash (key_pad key key_len 0x36 ++ take msg_len msg)

    inner : pass context (key_pad key key_len 0x36) msg msg_len output ≡ first
    inner =
        pass-hash context (key_pad key key_len 0x36) msg output msg_len (shape 0x36 (omega arith))
          hm fm small

    outer_pass :
        pass context (key_pad key key_len 0x5c) first 32 first
        ≡ hash (key_pad key key_len 0x5c ++ first)
    outer_pass =
        let b = hash-bytes (key_pad key key_len 0x36 ++ take msg_len msg) in
        pass-hash context (key_pad key key_len 0x5c) first first 32 (shape 0x5c (omega arith)) b.0
          (omega (arith, b.1)) (omega arith)
        ∙ ap (λ t. hash (key_pad key key_len 0x5c ++ t)) (take_all 32 first (omega (arith, b.1)))

-- A longer key is refused: `output` stays as it was.
pub hmac_sha256-long_key :
    (context : Context) (msg key output : Option (List ℕ)) (msg_len key_len : ℕ)
    → 64 < key_len
    → hmac_sha256 context msg msg_len key key_len output ≡ output
unfolding hmac_sha256
hmac_sha256-long_key context none key output msg_len key_len h = refl
hmac_sha256-long_key context (some msg) none output msg_len key_len h = refl
hmac_sha256-long_key context (some msg) (some key) none msg_len key_len h = refl
hmac_sha256-long_key context (some msg) (some key) (some output) msg_len key_len h =
    rw (lt→ltb 64 key_len h)
