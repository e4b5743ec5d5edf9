-- ===== src/Base/Ascii.antt =====
-- Bytes and ASCII text as lists of codes, with the methods of Python's `bytes` and `str` that the
-- code calls on them.
use Prim.Native.Nat.{ℕ, ◌+◌, ◌-◌, ◌*◌, zero, suc}
use Prim.Native.Char.{code}
use Prim.Native.String.{String}
use mathlib.Core.Bool.{Bool, true, false, not, ◌&&◌, ◌||◌}
use mathlib.Core.List.{List, [], ◌∷◌}
use data_analytics_platform.Base.Tests.{leb, ◌==◌, if◌then◌else◌}

abbrev pub Bytes : Type 0
Bytes = List ℕ

abbrev pub codes : String → Bytes
codes String.[] = []
codes (String.◌∷◌ c s) = code c ∷ codes s

abbrev pub bytes_eq : Bytes → Bytes → Bool
bytes_eq [] [] = true
bytes_eq (a ∷ s) (b ∷ t) = (a == b) && bytes_eq s t
bytes_eq _ _ = false

abbrev pub is_nil : Bytes → Bool
is_nil [] = true
is_nil _ = false

abbrev pub all_codes : (ℕ → Bool) → Bytes → Bool
all_codes p [] = true
all_codes p (c ∷ cs) = p c && all_codes p cs

-- `.lower()` of bytes
abbrev pub lower_code : ℕ → ℕ
lower_code c = if leb b'A' c && leb c b'Z' then c + 32 else c

unfoldable pub lower : Bytes → Bytes
lower [] = []
lower (c ∷ cs) = lower_code c ∷ lower cs

-- The white space of Latin-1, as `str.strip` knows it.
abbrev pub is_space : ℕ → Bool
is_space c = (leb 9 c && leb c 13) || ((leb 28 c && leb c 32) || ((c == 133) || (c == 160)))

unfoldable pub rstrip : (ℕ → Bool) → Bytes → Bytes
rstrip p [] = []
rstrip p (c ∷ cs) = let rest = rstrip p cs in if is_nil rest && p c then [] else c ∷ rest

unfoldable pub lstrip : (ℕ → Bool) → Bytes → Bytes
lstrip p [] = []
lstrip p (c ∷ cs) = if p c then lstrip p cs else c ∷ cs

unfoldable pub strip : Bytes → Bytes
unfolding rstrip lstrip
strip s = lstrip is_space (rstrip is_space s)

abbrev pub push_code : ℕ → List Bytes → List Bytes
push_code c [] = (c ∷ []) ∷ []
push_code c (p ∷ ps) = (c ∷ p) ∷ ps

-- `.split(c)`
unfoldable pub split_on : ℕ → Bytes → List Bytes
split_on c [] = [] ∷ []
split_on c (x ∷ xs) = let rest = split_on c xs in if x == c then [] ∷ rest else push_code x rest

abbrev pub is_digit : ℕ → Bool
is_digit c = leb b'0' c && leb c b'9'

-- `str.isdigit` of ASCII text
abbrev pub is_digits : Bytes → Bool
is_digits s = not (is_nil s) && all_codes is_digit s

-- `int` of a text of digits
unfoldable pub decimal : ℕ → Bytes → ℕ
decimal acc [] = acc
decimal acc (c ∷ cs) = decimal (acc * 10 + (c - b'0')) cs

unfoldable pub starts_with : Bytes → Bytes → Bool
starts_with [] s = true
starts_with (p ∷ ps) [] = false
starts_with (p ∷ ps) (c ∷ cs) = (p == c) && starts_with ps cs

unfoldable pub drop : ℕ → Bytes → Bytes
drop zero s = s
drop (suc n) [] = []
drop (suc n) (c ∷ cs) = drop n cs

abbrev pub has_code : ℕ → Bytes → Bool
has_code c s = not (all_codes (λ x. not (x == c)) s)
