-- ===== src/Prelude/Text.antt =====
-- Text literals as lists of character codes, and chains of calls that may fail.
use Prim.Native.Char.{code}
use Prim.Native.String.{String}
use clink3_wiki.Prelude.{ℕ, List, [], ◌∷◌, Option, none, some}

-- The bytes of an ASCII text
abbrev pub codes : String → List ℕ
codes String.[] = []
codes (String.◌∷◌ c s) = code c ∷ codes s

infixl 5 ◌>>=◌
abbrev pub ◌>>=◌ {ℓ κ} : {A : Type ℓ} {B : Type κ} → Option A → (A → Option B) → Option B
none >>= f = none
some a >>= f = f a
