-- ===== src/Prelude/Texts.antt =====
-- Text as the list of its code points, with the functions of `str` that the program calls.
use Prim.Native.Char.{code}
use Prim.Native.Nat.{◌+◌, ℕ, compare, Ordering}
use Prim.Native.String.{String}
use mathlib.Core.Path.{◌≡◌, refl}
use mathlib.Core.Logic.{◌↔◌}
use mathlib.Core.Bool.{Bool, true, false, ◌&&◌, ◌||◌}
use mathlib.Core.Option.{Option, none, some}
use mathlib.Core.List.{List, [], ◌∷◌}
use native.Mathlib.Omega.{arith}
use aleth_os_tool_passport.Prelude.Tests.{◌==◌, leb, if◌then◌else◌}

abbrev pub Text : Type 0
Text = List ℕ

abbrev pub codes : String → Text
codes String.[] = []
codes (String.◌∷◌ c s) = code c ∷ codes s

infix 50 ◌=ₜ◌
abbrev pub ◌=ₜ◌ : Text → Text → Bool
[] =ₜ [] = true
[] =ₜ (d ∷ t) = false
(c ∷ s) =ₜ [] = false
(c ∷ s) =ₜ (d ∷ t) = c == d && s =ₜ t

pub =ₜ→≡ : (s t : Text) → (s =ₜ t) ≡ true → s ≡ t
=ₜ→≡ [] [] h = refl
=ₜ→≡ [] (d ∷ t) h = ground arith
=ₜ→≡ (c ∷ s) [] h = ground arith
=ₜ→≡ (c ∷ s) (d ∷ t) h = ground (arith, =ₜ→≡ s t)

pub =ₜ_refl : (s : Text) → (s =ₜ s) ≡ true
=ₜ_refl [] = refl
=ₜ_refl (c ∷ s) = ground (arith, =ₜ_refl s)

pub =ₜ_iff : (s t : Text) → ((s =ₜ t) ≡ true) ↔ (s ≡ t)
=ₜ_iff s t = (=ₜ→≡ s t, λ e. ground (arith, =ₜ_refl s))

pub =ₜ_sym : (s t : Text) → (s =ₜ t) ≡ (t =ₜ s)
=ₜ_sym [] [] = refl
=ₜ_sym [] (d ∷ t) = refl
=ₜ_sym (c ∷ s) [] = refl
=ₜ_sym (c ∷ s) (d ∷ t) = ground (arith, =ₜ_sym s t)

-- `is_empty`
abbrev pub is_empty {ℓ} : {A : Type ℓ} → List A → Bool
is_empty [] = true
is_empty (c ∷ s) = false

-- `char::is_whitespace`: the code points with the property White_Space
unfoldable pub is_whitespace : ℕ → Bool
is_whitespace c =
    (leb 9 c && leb c 13)
    || c == 32
    || c == 0x85
    || c == 0xA0
    || c == 0x1680
    || (leb 0x2000 c && leb c 0x200A)
    || c == 0x2028
    || c == 0x2029
    || c == 0x202F
    || c == 0x205F
    || c == 0x3000

unfoldable pub trim_start : Text → Text
trim_start [] = []
trim_start (c ∷ s) = if is_whitespace c then trim_start s else c ∷ s

-- A character is kept exactly if it or one after it is no whitespace.
unfoldable pub trim_end : Text → Text
trim_end [] = []
trim_end (c ∷ s) =
    let rest = trim_end s in if is_empty rest && is_whitespace c then [] else c ∷ rest

unfoldable pub trim : Text → Text
unfolding trim_start trim_end is_whitespace
trim s = trim_end (trim_start s)

-- the order of `str::cmp`
unfoldable pub le_text : Text → Text → Bool
le_text [] t = true
le_text (c ∷ s) [] = false
le_text (c ∷ s) (d ∷ t) = elim (compare c d) [
  | Ordering.lt ↦ true
  | Ordering.gt ↦ false
  | Ordering.eq ↦ le_text s t
]

-- `split(c)`: the parts between the separators, one at least
abbrev pub with_first : ℕ → List Text → List Text
with_first c [] = (c ∷ []) ∷ []
with_first c (part ∷ parts) = (c ∷ part) ∷ parts

unfoldable pub split_on : ℕ → Text → List Text
split_on separator [] = [] ∷ []
split_on separator (c ∷ s) =
    let rest = split_on separator s in if c == separator then [] ∷ rest else with_first c rest

-- `starts_with`, `ends_with` and `contains` of a text
unfoldable pub starts_with : Text → Text → Bool
starts_with [] s = true
starts_with (c ∷ pattern) [] = false
starts_with (c ∷ pattern) (d ∷ s) = let rest = starts_with pattern s in c == d && rest

-- `strip_prefix`
unfoldable pub strip_prefix : Text → Text → Option Text
strip_prefix [] s = some s
strip_prefix (c ∷ pattern) [] = none
strip_prefix (c ∷ pattern) (d ∷ s) =
    let rest = strip_prefix pattern s in if c == d then rest else none

unfoldable pub ends_with : Text → Text → Bool
ends_with pattern [] = is_empty pattern
ends_with pattern (c ∷ s) = let rest = ends_with pattern s in pattern =ₜ (c ∷ s) || rest

unfoldable pub contains : Text → Text → Bool
unfolding starts_with
contains pattern [] = is_empty pattern
contains pattern (c ∷ s) = let rest = contains pattern s in starts_with pattern (c ∷ s) || rest

-- `to_ascii_lowercase`
abbrev pub ascii_lower : ℕ → ℕ
ascii_lower c = if leb 65 c && leb c 90 then c + 32 else c

unfoldable pub to_ascii_lowercase : Text → Text
to_ascii_lowercase [] = []
to_ascii_lowercase (c ∷ s) = ascii_lower c ∷ to_ascii_lowercase s
