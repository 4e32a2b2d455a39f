-- ===== src/Sign/Buffers.antt =====
-- What the buffers of `aiotMqttSign` hold: the texts that the copies put together, with their zero.
use clink3_wiki.Prelude.{
  ℕ, suc, ◌+◌, ◌≤◌, ◌<◌, ◌≡◌, refl, ap, ◌∙◌, sym, List, [], ◌∷◌, ◌++◌, arith, All, All-append,
  length, length-append, length-drop, take, drop, drop-drop, take-append, replicate, append_assoc,
}
use clink3_wiki.Prelude.Words.{IsByte}
use clink3_wiki.Prelude.Buffer.{
  memcpy, memcpy-start, memcpy_lem, strlen, IsText, Holds, strlen-Holds, memcpy-Holds,
}
use clink3_wiki.Prelude.Text.{codes}
use clink3_wiki.Sign.Mqtt.{
  append_text, device_id, put_text, put_client_id, mqtt_clinetid_kv, timestamp_value,
}

-- A name of the device: "deviceName&productKey"
abbrev pub identity : List ℕ → List ℕ → List ℕ
identity device_name product_key = (device_name ++ codes "&") ++ product_key

-- A buffer that holds `text` and its zero; behind that it is as it was.
abbrev pub terminated : List ℕ → List ℕ → List ℕ
terminated text buf = text ++ (0 ∷ drop (suc (length text)) buf)

-- A text in a buffer that is zero behind it, grown by copies to its end.
pub append_text-Holds :
    (room : ℕ) (s : List ℕ) {buf : List ℕ} (src : List ℕ)
    → Holds room s buf
    → IsText s
    → length s + length src ≤ room
    → Holds room (s ++ src) (append_text buf src)
append_text-Holds room s {buf} src h t fits =
    rw (strlen-Holds room s t h) (memcpy-Holds room s src h fits)

pub zeroed-Holds :
    (room : ℕ) (src : List ℕ) → length src ≤ room → Holds room src (memcpy (replicate room 0) 0 src)
zeroed-Holds room src fits =
    memcpy-Holds room [] src (ap (λ n. replicate n 0) (omega arith), omega arith) (omega arith)

pub IsText-append : (s t : List ℕ) → IsText s → IsText t → IsText (s ++ t)
IsText-append s t hs ht = All-append (λ c. 0 < c) s t hs ht

-- The text of a held buffer can be read back.
pub take-Holds :
    (room : ℕ) (s : List ℕ) {buf : List ℕ} → Holds room s buf → IsText s → take (strlen buf) buf ≡ s
take-Holds room s {buf} h t =
    rw (strlen-Holds room s t h) (ap (take (length s)) h.0 ∙ take-append (length s) s _ refl)

pub identity-IsText : (dn pk : List ℕ) → IsText dn → IsText pk → IsText (identity dn pk)
identity-IsText dn pk hd hp =
    IsText-append (dn ++ codes "&") pk (IsText-append dn (codes "&") hd (omega arith)) hp

pub identity-bytes : (dn pk : List ℕ) → All IsByte dn → All IsByte pk → All IsByte (identity dn pk)
identity-bytes dn pk hd hp =
    All-append IsByte (dn ++ codes "&") pk (All-append IsByte dn (codes "&") hd (omega arith)) hp

pub length-identity : (dn pk : List ℕ) → length (identity dn pk) ≡ length dn + 1 + length pk
length-identity dn pk =
    omega (arith, length-append (dn ++ codes "&") pk, length-append dn (codes "&"))

pub device_id-Holds :
    (dn pk : List ℕ)
    → IsText dn
    → IsText pk
    → length dn ≤ 32
    → length pk ≤ 20
    → Holds 54 (identity dn pk) (device_id dn pk)
unfolding device_id
device_id-Holds dn pk hd hp ld lp =
    append_text-Holds 54 (dn ++ codes "&") pk
      (append_text-Holds 54 dn (codes "&") (zeroed-Holds 54 dn (omega arith)) hd (omega arith))
      (IsText-append dn (codes "&") hd (omega arith)) (omega (arith, length-append dn (codes "&")))

pub memcpy_twice :
    (buf text more : List ℕ)
    → length text + length more ≤ length buf
    → memcpy (memcpy buf 0 text) (length text) more
      ≡ (text ++ more) ++ drop (length text + length more) buf
memcpy_twice buf text more fits =
    ap (λ b. memcpy b (length text) more) (memcpy-start buf text (omega arith))
    ∙ memcpy_lem (length text) text (drop (length text) buf) more refl
        (omega (arith, length-drop (length text) buf))
    ∙ sym (append_assoc text more (drop (length more) (drop (length text) buf)))
    ∙ ap (λ t. (text ++ more) ++ t) (drop-drop (length more) (length text) buf)

pub put_text-terminated :
    (room : ℕ) (buf text id : List ℕ)
    → Holds room text id
    → IsText text
    → length text < length buf
    → put_text buf id ≡ terminated text buf
unfolding put_text
put_text-terminated room buf text id h t fits =
    rw (take-Holds room text h t, strlen-Holds room text t h)
      (memcpy_twice buf text (0 ∷ []) (omega arith)
        ∙ append_assoc text (0 ∷ []) (drop (length text + 1) buf)
        ∙ ap (λ k. text ++ (0 ∷ drop k buf)) behind)
  where
    behind : length text + 1 ≡ suc (length text)
    behind = omega arith

length-kv : length mqtt_clinetid_kv ≡ 82
length-kv = refl

pub put_client_id-terminated :
    (room : ℕ) (buf text id : List ℕ)
    → Holds room text id
    → IsText text
    → length text + 82 < length buf
    → put_client_id buf id ≡ terminated (text ++ mqtt_clinetid_kv) buf
unfolding put_client_id
put_client_id-terminated room buf text id h t fits =
    rw (take-Holds room text h t, strlen-Holds room text t h)
      (ap (λ b. memcpy b (length text + 82) (0 ∷ []))
          (memcpy_twice buf text mqtt_clinetid_kv (omega arith))
        ∙ memcpy_lem (length text + 82) (text ++ mqtt_clinetid_kv) (drop (length text + 82) buf)
            (0 ∷ []) (omega (arith, length-append text mqtt_clinetid_kv))
            (omega (arith, length-drop (length text + 82) buf))
        ∙ ap (λ u. (text ++ mqtt_clinetid_kv) ++ (0 ∷ u))
            (drop-drop 1 (length text + 82) buf ∙ ap (λ k. drop k buf) last))
  where
    last : length text + 82 + 1 ≡ suc (length (text ++ mqtt_clinetid_kv))
    last = omega (arith, length-append text mqtt_clinetid_kv)

-- The text that is signed
abbrev pub source_text : List ℕ → List ℕ → List ℕ
source_text dn pk =
    ((((((codes "clientId" ++ identity dn pk) ++ codes "deviceName") ++ dn) ++ codes "productKey")
        ++ pk)
      ++ codes "timestamp")
    ++ timestamp_value

-- One link of the chain: the buffer holds a text of bytes so far.
pub record Chain (room : ℕ) (s buf : List ℕ) : Type 0 where
  pub holds : Holds room s buf
  pub text : IsText s
  pub bytes : All IsByte s

pub Chain-append :
    (room : ℕ) (s buf src : List ℕ)
    → Chain room s buf
    → IsText src × All IsByte src
    → length s + length src ≤ room
    → Chain room (s ++ src) (append_text buf src)
Chain-append room s buf src c t fits = record {
  holds = append_text-Holds room s src c.holds c.text fits;
  text = IsText-append s src c.text t.0;
  bytes = All-append IsByte s src c.bytes t.1;
}
