-- ===== src/Sha256/Word.antt =====
-- The word macros of aiot_mqtt_sign.c: GET_UINT32_BE, SHR, ROTR, S0 to S3, F0, F1, and the table K.
use Prim.Native.Nat.{bit_and, bit_or, bit_xor}
use clink3_wiki.Prelude.{ℕ, ◌+◌, ◌-◌, ◌*◌, ◌/◌, ◌^◌, List, [], ◌∷◌, get_or}
use clink3_wiki.Prelude.Words.{u32}

-- `uint32_t` addition
infixl 65 ◌⊞◌
abbrev pub ◌⊞◌ : ℕ → ℕ → ℕ
a ⊞ b = u32 (a + b)

-- `data[i]`, an `unsigned char`
abbrev pub byte_at : List ℕ → ℕ → ℕ
byte_at bytes i = get_or bytes i 0

-- The word that GET_UINT32_BE reads at `b + i`. Each byte is converted before the shift.
unfoldable pub get_uint32_be : List ℕ → ℕ → ℕ
get_uint32_be b i =
    bit_or
      (bit_or (bit_or (u32 (byte_at b i * 2 ^ 24)) (u32 (byte_at b (i + 1) * 2 ^ 16)))
        (u32 (byte_at b (i + 2) * 2 ^ 8)))
      (u32 (byte_at b (i + 3)))

unfoldable pub shr : ℕ → ℕ → ℕ
shr x n = bit_and x 0xffff_ffff / 2 ^ n

unfoldable pub rotr : ℕ → ℕ → ℕ
unfolding shr
rotr x n = bit_or (shr x n) (u32 (x * 2 ^ (32 - n)))

unfoldable pub s0 : ℕ → ℕ
unfolding rotr shr
s0 x = bit_xor (bit_xor (rotr x 7) (rotr x 18)) (shr x 3)

unfoldable pub s1 : ℕ → ℕ
unfolding rotr shr
s1 x = bit_xor (bit_xor (rotr x 17) (rotr x 19)) (shr x 10)

unfoldable pub s2 : ℕ → ℕ
unfolding rotr
s2 x = bit_xor (bit_xor (rotr x 2) (rotr x 13)) (rotr x 22)

unfoldable pub s3 : ℕ → ℕ
unfolding rotr
s3 x = bit_xor (bit_xor (rotr x 6) (rotr x 11)) (rotr x 25)

unfoldable pub f0 : ℕ → ℕ → ℕ → ℕ
f0 x y z = bit_or (bit_and x y) (bit_and z (bit_or x y))

unfoldable pub f1 : ℕ → ℕ → ℕ → ℕ
f1 x y z = bit_xor z (bit_and x (bit_xor y z))

abbrev pub k_table : List ℕ
k_table =
    0x428A2F98 ∷ 0x71374491 ∷ 0xB5C0FBCF ∷ 0xE9B5DBA5 ∷ 0x3956C25B ∷ 0x59F111F1 ∷ 0x923F82A4
    ∷ 0xAB1C5ED5 ∷ 0xD807AA98 ∷ 0x12835B01 ∷ 0x243185BE ∷ 0x550C7DC3 ∷ 0x72BE5D74 ∷ 0x80DEB1FE
    ∷ 0x9BDC06A7 ∷ 0xC19BF174 ∷ 0xE49B69C1 ∷ 0xEFBE4786 ∷ 0x0FC19DC6 ∷ 0x240CA1CC ∷ 0x2DE92C6F
    ∷ 0x4A7484AA ∷ 0x5CB0A9DC ∷ 0x76F988DA ∷ 0x983E5152 ∷ 0xA831C66D ∷ 0xB00327C8 ∷ 0xBF597FC7
    ∷ 0xC6E00BF3 ∷ 0xD5A79147 ∷ 0x06CA6351 ∷ 0x14292967 ∷ 0x27B70A85 ∷ 0x2E1B2138 ∷ 0x4D2C6DFC
    ∷ 0x53380D13 ∷ 0x650A7354 ∷ 0x766A0ABB ∷ 0x81C2C92E ∷ 0x92722C85 ∷ 0xA2BFE8A1 ∷ 0xA81A664B
    ∷ 0xC24B8B70 ∷ 0xC76C51A3 ∷ 0xD192E819 ∷ 0xD6990624 ∷ 0xF40E3585 ∷ 0x106AA070 ∷ 0x19A4C116
    ∷ 0x1E376C08 ∷ 0x2748774C ∷ 0x34B0BCB5 ∷ 0x391C0CB3 ∷ 0x4ED8AA4A ∷ 0x5B9CCA4F ∷ 0x682E6FF3
    ∷ 0x748F82EE ∷ 0x78A5636F ∷ 0x84C87814 ∷ 0x8CC70208 ∷ 0x90BEFFFA ∷ 0xA4506CEB ∷ 0xBEF9A3F7
    ∷ 0xC67178F2 ∷ []

-- `K[i]`, shut so that the table stays out of goals
unfoldable pub round_constant : ℕ → ℕ
round_constant i = get_or k_table i 0
