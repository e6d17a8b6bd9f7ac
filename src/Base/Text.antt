-- ===== src/Base/Text.antt =====
-- The operations of JavaScript strings that the code uses: `split(',')`, `split(' ')`, `join`, `+`, and
-- the removal of white space by `replace(/\s/g, '')`.
pub mod Split
use Prim.Native.Nat.{ℕ, zero, suc, ◌/◌, ◌%◌}
use Prim.Native.Char.{Char, code}
use Prim.Native.String
use Prim.Native.String.{String, [], ◌∷◌}
use mathlib.Core.Path.{◌≡◌, refl}
use mathlib.Core.Bool.{Bool, true, false, ◌&&◌, ◌||◌}
use mathlib.Core.Option.{Option, none, some}
use mathlib.Core.List.{List, [], ◌∷◌}
use auth_backend.Base.Tests.{◌==◌, leb, if◌then◌else◌}

abbrev pub concat : List String → String
concat [] = ""
concat (s ∷ rest) = String.◌++◌ s (concat rest)

-- `s.substring(0, n)`.
abbrev pub substring : ℕ → String → String
substring zero s = ""
substring (suc n) [] = ""
substring (suc n) (c ∷ s) = c ∷ substring n s

-- `s.charAt(n)`.
abbrev char_at : ℕ → String → String
char_at n [] = ""
char_at zero (c ∷ s) = c ∷ []
char_at (suc n) (c ∷ s) = char_at n s

-- The digits of `n` in front of a text, one for each unit of fuel at most.
abbrev digits : ℕ → ℕ → String → String
digits zero n acc = acc
digits (suc k) n acc =
    let shown = String.◌++◌ (char_at (n % 10) "0123456789") acc in
    let rest = digits k (n / 10) shown in if n / 10 == 0 then shown else rest

-- A number in a template string; it has at most as many digits as units of fuel.
abbrev pub decimal : ℕ → String
decimal n = digits (suc n) n ""

abbrev is_comma : Char → Bool
is_comma c = code c == b','

-- `c` in front of the first piece.
abbrev pub onto_first : Char → List String → List String
onto_first c [] = (c ∷ []) ∷ []
onto_first c (p ∷ ps) = (c ∷ p) ∷ ps

unfoldable pub split : String → List String
split [] = "" ∷ []
split (c ∷ s) = let rest = split s in if is_comma c then "" ∷ rest else onto_first c rest

abbrev is_blank : Char → Bool
is_blank c = code c == 0x20

-- `split(' ')`
unfoldable pub split_words : String → List String
split_words [] = "" ∷ []
split_words (c ∷ s) =
    let rest = split_words s in if is_blank c then "" ∷ rest else onto_first c rest

unfoldable pub join : String → List String → String
join separator [] = ""
join separator (p ∷ []) = p
join separator (p ∷ q ∷ ps) = String.◌++◌ p (String.◌++◌ separator (join separator (q ∷ ps)))

-- The class `\s` of regular expressions.
abbrev pub is_space : Char → Bool
is_space c =
    leb 0x9 (code c) && leb (code c) 0xd
    || code c == 0x20
    || code c == 0xa0
    || code c == 0x1680
    || leb 0x2000 (code c) && leb (code c) 0x200a
    || code c == 0x2028
    || code c == 0x2029
    || code c == 0x202f
    || code c == 0x205f
    || code c == 0x3000
    || code c == 0xfeff

unfoldable pub strip_spaces : String → String
strip_spaces [] = ""
strip_spaces (c ∷ s) = let rest = strip_spaces s in if is_space c then rest else c ∷ rest

split_test : split "a,,bc" ≡ "a" ∷ "" ∷ "bc" ∷ []
unfolding split
split_test = refl

join_test : join "," ("a" ∷ "" ∷ "bc" ∷ []) ≡ "a,,bc"
unfolding join
join_test = refl

strip_spaces_test : strip_spaces "A b\tc" ≡ "Abc"
unfolding strip_spaces
strip_spaces_test = refl
