-- ===== src/Sign/Source.antt =====
-- The text that `aiotMqttSign` signs, and the password that it writes.
use clink3_wiki.Prelude.{
  ℕ, suc, ◌+◌, ◌-◌, ◌*◌, ◌≤◌, ◌≡◌, ap, ap₂, ◌∙◌, sym, subst, List, ◌∷◌, ◌++◌, arith, some, All,
  All-append, All-replicate, length, length-append, drop, take_all, replicate,
}
use clink3_wiki.Prelude.Words.{IsByte}
use clink3_wiki.Prelude.Buffer.{memcpy, memcpy-start, strlen, IsText, Holds, strlen-Holds}
use clink3_wiki.Prelude.Text.{codes}
use clink3_wiki.Sha256.Stream.{Context}
use clink3_wiki.Sign.Hmac.{hmac, hmac_sha256-hmac}
use clink3_wiki.Sign.Hex.{hex, hex2str, hex2str-hex, length-hex}
use clink3_wiki.Sign.Mqtt.{append_text, mac_source, mac_result, put_password, timestamp_value}
use clink3_wiki.Sign.Buffers.{
  identity, identity-IsText, identity-bytes, length-identity, source_text, Chain, Chain-append,
  zeroed-Holds, take-Holds, terminated,
}

-- A chain whose text has at most `n` bytes
abbrev Linked : ℕ → List ℕ → List ℕ → Type 0
Linked n s buf = Chain 200 s buf × (length s ≤ n)

start : Linked 8 (codes "clientId") (memcpy (replicate 200 0) 0 (codes "clientId"))
start = (
  record {
    holds = zeroed-Holds 200 (codes "clientId") (omega arith);
    text = omega arith;
    bytes = omega arith;
  },
  omega arith,
)

link :
    (n k : ℕ) {s buf : List ℕ} (src : List ℕ)
    → Linked n s buf
    → IsText src × All IsByte src
    → length src ≤ k
    → n + k ≤ 200
    → Linked (n + k) (s ++ src) (append_text buf src)
link n k {s} {buf} src c t le fits =
    (Chain-append 200 s buf src c.0 t (omega (arith, c.1)), omega (arith, length-append s src, c.1))

mac_source-Chain :
    (dn pk id : List ℕ)
    → IsText dn × All IsByte dn × (length dn ≤ 32)
    → IsText pk × All IsByte pk × (length pk ≤ 20)
    → Holds 54 (identity dn pk) id
    → Chain 200 (source_text dn pk) (mac_source id dn pk)
unfolding mac_source
mac_source-Chain dn pk id hd hp h =
    rw (take-Holds 54 (identity dn pk) h (identity-IsText dn pk hd.0 hp.0)) (
      let c1 =
        link 8 53 (identity dn pk) start
          (identity-IsText dn pk hd.0 hp.0, identity-bytes dn pk hd.1 hp.1)
          (omega (arith, length-identity dn pk)) (omega arith) in
      let c2 = link 61 10 (codes "deviceName") c1 (omega arith) (omega arith) (omega arith) in
      let c3 = link 71 32 dn c2 (hd.0, hd.1) hd.2 (omega arith) in
      let c4 = link 103 10 (codes "productKey") c3 (omega arith) (omega arith) (omega arith) in
      let c5 = link 113 20 pk c4 (hp.0, hp.1) hp.2 (omega arith) in
      let c6 = link 133 9 (codes "timestamp") c5 (omega arith) (omega arith) (omega arith) in
      let c7 = link 142 13 timestamp_value c6 (omega arith) (omega arith) (omega arith) in c7.0)

text-IsByte : (size : ℕ) (s buf : List ℕ) → All IsByte s → Holds size s buf → All IsByte buf
text-IsByte size s buf h held =
    subst (All IsByte) (sym held.0)
      (All-append IsByte s _ h (All-replicate IsByte (size - length s) 0 (omega arith)))

-- `macRes` is the HMAC of the source text with the device secret.
pub mac_result-hmac :
    (context : Context) (dn pk ds id : List ℕ)
    → IsText dn × All IsByte dn × (length dn ≤ 32)
    → IsText pk × All IsByte pk × (length pk ≤ 20)
    → All IsByte ds × (length ds ≤ 64)
    → Holds 54 (identity dn pk) id
    → mac_result context (mac_source id dn pk) ds ≡ some (hmac ds (source_text dn pk))
unfolding mac_result
mac_result-hmac context dn pk ds id hd hp hs h =
    hmac_sha256-hmac context source ds (replicate 32 0) (strlen source) (length ds)
      (text-IsByte 200 (source_text dn pk) source c.bytes c.holds) hs.0 (omega (arith, strlen_le))
      (omega arith) (omega (arith, strlen_le, c.holds.1, size_eq)) hs.1
    ∙ ap₂ (λ k m. some (hmac k m)) (take_all (length ds) ds (omega arith))
        (take-Holds 200 (source_text dn pk) c.holds c.text)
  where
    source : List ℕ
    source = mac_source id dn pk

    c : Chain 200 (source_text dn pk) source
    c = mac_source-Chain dn pk id hd hp h

    size_eq : strlen source ≡ length (source_text dn pk)
    size_eq = strlen-Holds 200 (source_text dn pk) c.text c.holds

    strlen_le : strlen source ≤ length source
    strlen_le = omega (
      arith,
      size_eq,
      ap length c.holds.0,
      length-append (source_text dn pk) (replicate (200 - length (source_text dn pk)) 0),
    )

-- The password is the hexadecimal form of the 32 bytes, with its zero.
pub put_password-hex :
    (mac buf : List ℕ)
    → length mac ≡ 32
    → 65 ≤ length buf
    → put_password (some mac) buf ≡ some (terminated (hex mac) buf)
unfolding put_password
put_password-hex mac buf e fits = ap some (
    ap (hex2str mac 32) (memcpy-start buf (replicate 65 0) (omega arith))
    ∙ ap (λ n. hex2str mac n cleared) (sym e)
    ∙ hex2str-hex mac cleared (omega (arith, e))
    ∙ ap (λ n. hex mac ++ drop (2 * n) cleared) e
    ∙ ap (λ n. hex mac ++ (0 ∷ drop n buf)) size)
  where
    size : 65 ≡ suc (length (hex mac))
    size = omega (arith, length-hex mac, e)

    cleared : List ℕ
    cleared = replicate 65 0 ++ drop 65 buf
