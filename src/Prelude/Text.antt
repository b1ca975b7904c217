-- ===== src/Prelude/Text.antt =====
-- Text that the source searches or lowers: its code points. Letters outside ASCII have no
-- lower case here; no text that the source looks for holds one.
use Prim.Native.Nat.{ℕ, zero, suc, ◌+◌, ◌%◌, ◌/◌}
use Prim.Native.Char.{code}
use Prim.Native.String.{String}
use mathlib.Core.Path.{◌≡◌, refl}
use mathlib.Core.Bool.{Bool, true, false, ◌&&◌, ◌||◌}
use mathlib.Core.List.{List, [], ◌∷◌, ◌++◌, map}
use native.Mathlib.Omega.{arith}
use parallel_usdp_hyperevm_i.Prelude.Tests.{leb, ◌==◌, if◌then◌else◌}

abbrev pub Text : Type 0
Text = List ℕ

-- The text of a literal.
abbrev pub codes : String → Text
codes String.[] = []
codes (String.◌∷◌ c s) = code c ∷ codes s

-- Of ASCII letters, which are those of hashes, addresses and the messages that are searched.
unfoldable pub to_lower : ℕ → ℕ
to_lower c = if leb b'A' c && leb c b'Z' then c + 32 else c

unfoldable pub to_lower_case : Text → Text
unfolding to_lower
to_lower_case t = map to_lower t

-- The digits of a number, on fuel that the number itself is enough of.
unfoldable pub digits_of : ℕ → ℕ → Text
digits_of zero n = (b'0' + n % 10) ∷ []
digits_of (suc fuel) n = elim (leb n 9) [
  | true ↦ (b'0' + n) ∷ []
  | false ↦ digits_of fuel (n / 10) ++ (b'0' + n % 10) ∷ []
]

abbrev pub decimal_text : ℕ → Text
decimal_text n = digits_of n n

-- `replaceAll("_", " ")`, one character at a time.
unfoldable pub underscore_to_space : ℕ → ℕ
underscore_to_space c = if c == b'_' then b' ' else c

unfoldable pub starts_with : Text → Text → Bool
starts_with [] t = true
starts_with (p ∷ ps) [] = false
starts_with (p ∷ ps) (c ∷ cs) = p == c && starts_with ps cs

-- `text.includes(part)`
unfoldable pub includes : Text → Text → Bool
unfolding starts_with
includes part [] = starts_with part []
includes part (c ∷ cs) = starts_with part (c ∷ cs) || includes part cs

unfoldable pub text_eq : Text → Text → Bool
text_eq [] [] = true
text_eq (a ∷ as') (b ∷ bs) = a == b && text_eq as' bs
text_eq _ _ = false

pub text_eq_refl : (t : Text) → text_eq t t ≡ true
unfolding text_eq
text_eq_refl [] = refl
text_eq_refl (a ∷ t) = ground (arith, text_eq_refl t)

pub eq_of_text_eq : (s t : Text) → text_eq s t ≡ true → s ≡ t
unfolding text_eq
eq_of_text_eq [] [] h = refl
eq_of_text_eq (a ∷ s) (b ∷ t) h = ground (arith, eq_of_text_eq s t)
eq_of_text_eq [] (b ∷ t) h = cc
eq_of_text_eq (a ∷ s) [] h = cc

pub to_lower_idem : (c : ℕ) → to_lower (to_lower c) ≡ to_lower c
unfolding to_lower
to_lower_idem c = ground arith

pub to_lower_case_idem : (t : Text) → to_lower_case (to_lower_case t) ≡ to_lower_case t
unfolding to_lower_case
to_lower_case_idem [] = refl
to_lower_case_idem (c ∷ t) = ground (arith, to_lower_idem c, to_lower_case_idem t)

pub starts_with-append : (part rest : Text) → starts_with part (part ++ rest) ≡ true
unfolding starts_with
starts_with-append [] rest = refl
starts_with-append (p ∷ ps) rest = ground (arith, starts_with-append ps rest)

-- A text includes whatever part stands in it.
pub includes-append : (front part rest : Text) → includes part (front ++ (part ++ rest)) ≡ true
unfolding includes
includes-append [] [] [] = refl
includes-append [] [] (c ∷ rest) = refl
includes-append [] (p ∷ ps) rest = ground (arith, starts_with-append (p ∷ ps) rest)
includes-append (c ∷ front) part rest = ground (arith, includes-append front part rest)
