-- ===== src/Base/Texts.antt =====
-- Texts by characters, as Python's `len` and slices count them.
use Prim.Native.Nat.{ℕ, zero, suc, ◌≤◌}
use Prim.Native.String.{String}
use mathlib.Core.Bool.{Bool, true, false}
use mathlib.Core.Option.{Option, none, some}
use text.Mathlib.Text.{◌==◌ as str_eq}
use text.Mathlib.TextEquality.{eq_iff}
use mathlib.Core.Path.{◌≡◌, ap}
use mathlib.Core.Logic.{inl, inr}
use data_analytics_platform.Base.Tests.{Bool-cases}
use native.Mathlib.Omega.{arith}

-- `len(text)`
unfoldable pub text_length : String → ℕ
text_length String.[] = 0
text_length (String.◌∷◌ c s) = suc (text_length s)

-- `text[:n]`
unfoldable pub text_take : ℕ → String → String
text_take zero s = String.[]
text_take (suc n) String.[] = String.[]
text_take (suc n) (String.◌∷◌ c s) = String.◌∷◌ c (text_take n s)

pub text_length-text_take-le : (n : ℕ) (s : String) → text_length (text_take n s) ≤ n
unfolding text_length text_take
text_length-text_take-le zero s = omega arith
text_length-text_take-le (suc n) String.[] = omega arith
text_length-text_take-le (suc n) (String.◌∷◌ c s) = omega (arith, text_length-text_take-le n s)

-- A slice of at least one character is empty only for the empty text.
pub text_take-ne-empty :
    (n : ℕ) (s : String) → str_eq s "" ≡ false → str_eq (text_take (suc n) s) "" ≡ false
unfolding text_take text_length
text_take-ne-empty n String.[] h = h
text_take-ne-empty n (String.◌∷◌ c s) h =
    elim (Bool-cases (str_eq (String.◌∷◌ c (text_take n s)) "")) [
      | inl e ↦
          absurd (omega (arith, ap text_length ((eq_iff (String.◌∷◌ c (text_take n s)) "").0 e)))
      | inr e ↦ e
    ]

-- Equality of optional texts, `None == None` included.
abbrev pub opt_eq : Option String → Option String → Bool
opt_eq none none = true
opt_eq (some s) (some t) = str_eq s t
opt_eq _ _ = false
