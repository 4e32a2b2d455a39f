-- ===== src/Sign/Hex.antt =====
-- `_hex2str` of aiot_mqtt_sign.c writes the hexadecimal form of its input.
use Prim.Native.Nat.{bit_and}
use clink3_wiki.Prelude.{
  ℕ, zero, suc, ltb, if◌then◌else◌, ◌-◌, ◌+◌, ◌*◌, ◌/◌, ◌%◌, ◌^◌, ◌≤◌, ◌<◌, ◌≡◌, refl, ap, ◌∙◌, sym,
  List, [], ◌∷◌, ◌++◌, arith, length, length-append, get_or, set, set-append, get_or-append, drop,
  append_assoc,
}
use clink3_wiki.Prelude.Bits.{bit_and_mask}
use clink3_wiki.Prelude.Text.{codes}

-- `zEncode`
abbrev pub z_encode : List ℕ
z_encode = codes "0123456789ABCDEF"

-- `zEncode[d]`
unfoldable pub encode : ℕ → ℕ
encode d = get_or z_encode d 0

-- The loop from `i` and `j` on, with `left` bytes to go; `input` is read and `output` written.
unfoldable pub hex_loop : ℕ → ℕ → ℕ → List ℕ → List ℕ → List ℕ
hex_loop zero i j input output = output
hex_loop (suc left) i j input output =
    let b = get_or input i 0 in
    let high = set output j (encode (bit_and (b / 2 ^ 4) 0xf)) in
    hex_loop left (i + 1) (j + 2) input (set high (j + 1) (encode (bit_and b 0xf)))

unfoldable pub hex2str : List ℕ → ℕ → List ℕ → List ℕ
unfolding hex_loop
hex2str input input_len output = hex_loop input_len 0 0 input output

-- The hexadecimal digit of a number below 16: 0 to 9 from 48 on, A to F from 65 on
unfoldable pub digit : ℕ → ℕ
digit d = if ltb d 10 then 48 + d else 65 + (d - 10)

-- Two digits for a byte, the high one first
unfoldable pub hex : List ℕ → List ℕ
hex [] = []
hex (b ∷ bytes) = digit (b / 16 % 16) ∷ digit (b % 16) ∷ hex bytes

pub length-hex : (bytes : List ℕ) → length (hex bytes) ≡ 2 * length bytes
unfolding hex
length-hex [] = omega arith
length-hex (b ∷ bytes) = omega (arith, length-hex bytes)

digit_pos : (d : ℕ) → 0 < digit d
unfolding digit
digit_pos d = ground arith

encode-digit : (d : ℕ) → d < 16 → encode d ≡ digit d
unfolding encode digit
encode-digit d h = grind arith

hex_loop_lem :
    (left i j : ℕ) (seen bytes pre post : List ℕ)
    → length bytes ≡ left
    → i ≡ length seen
    → j ≡ length pre
    → 2 * left ≤ length post
    → hex_loop left i j (seen ++ bytes) (pre ++ post) ≡ pre ++ (hex bytes ++ drop (2 * left) post)
unfolding hex_loop hex
hex_loop_lem zero i j seen [] pre post el ei ej fits = refl
hex_loop_lem zero i j seen (b ∷ bytes) pre post el ei ej fits = absurd (omega arith)
hex_loop_lem (suc left) i j seen [] pre post el ei ej fits = absurd (omega arith)
hex_loop_lem (suc left) i j seen (b ∷ bytes) pre [] el ei ej fits = absurd (omega arith)
hex_loop_lem (suc left) i j seen (b ∷ bytes) pre (p ∷ []) el ei ej fits = absurd (omega arith)
hex_loop_lem (suc left) i j seen (b ∷ bytes) pre (p ∷ q ∷ post) el ei ej fits =
    let hi = digit (b / 16 % 16) in
    let lo = digit (b % 16) in
    let read : get_or (seen ++ b ∷ bytes) i 0 ≡ b = get_or-append i seen b 0 bytes ei in
    let first : set (pre ++ p ∷ q ∷ post) j hi ≡ pre ++ hi ∷ q ∷ post =
      set-append j pre p hi (q ∷ post) ej in
    let second : set (pre ++ hi ∷ q ∷ post) (j + 1) lo ≡ (pre ++ hi ∷ lo ∷ []) ++ post =
      ap (λ t. set t (j + 1) lo) (sym (append_assoc pre (hi ∷ []) (q ∷ post)))
      ∙ set-append (j + 1) (pre ++ hi ∷ []) q lo post (omega (arith, length-append pre (hi ∷ [])))
      ∙ append_assoc pre (hi ∷ []) (lo ∷ post)
      ∙ sym (append_assoc pre (hi ∷ lo ∷ []) post) in
    let twice : 2 * suc left ≡ suc (suc (2 * left)) = omega arith in
    rw
      (
        read,
        bit_and_mask 4 (b / 2 ^ 4),
        bit_and_mask 4 b,
        encode-digit (b / 16 % 16) (omega arith),
        encode-digit (b % 16) (omega arith),
        first,
        second,
        twice,
      )
      (ap (λ t. hex_loop left (i + 1) (j + 2) t ((pre ++ hi ∷ lo ∷ []) ++ post))
          (sym (append_assoc seen (b ∷ []) bytes))
        ∙ hex_loop_lem left (i + 1) (j + 2) (seen ++ b ∷ []) bytes (pre ++ hi ∷ lo ∷ []) post
            (omega arith) (omega (arith, length-append seen (b ∷ [])))
            (omega (arith, length-append pre (hi ∷ lo ∷ []))) (omega arith)
        ∙ append_assoc pre (hi ∷ lo ∷ []) (hex bytes ++ drop (2 * left) post))

-- With an output of at least two bytes for each input byte, `_hex2str` writes the hexadecimal form
-- at the start of it, and nothing else.
pub hex2str-hex :
    (bytes output : List ℕ)
    → 2 * length bytes ≤ length output
    → hex2str bytes (length bytes) output ≡ hex bytes ++ drop (2 * length bytes) output
unfolding hex2str
hex2str-hex bytes output fits =
    hex_loop_lem (length bytes) 0 0 [] bytes [] output refl refl refl fits
