-- ===== src/Base/Text/Split.antt =====
-- `split(',')` after `join(',')`.
use Prim.Native.Char.{Char}
use Prim.Native.String
use Prim.Native.String.{String, [], ◌∷◌}
use mathlib.Core.Path.{◌≡◌, refl, ◌∙◌, ap}
use mathlib.Core.Bool.{Bool, false}
use mathlib.Core.Logic.{inl, inr}
use mathlib.Core.List.{List, [], ◌∷◌}
use native.Mathlib.Omega.{arith}
use text.Mathlib.TextLemmas.{nil-append, cons-append}
use auth_backend.Base.Tests.{Bool-cases}
use auth_backend.Base.Lists.{filter}
use auth_backend.Base.Text.{is_comma, onto_first, split, join}

abbrev pub NoComma : String → Type 0
NoComma [] = Unit
NoComma (c ∷ s) = (is_comma c ≡ false) × NoComma s

abbrev pub AllNoComma : List String → Type 0
AllNoComma [] = Unit
AllNoComma (p ∷ ps) = NoComma p × AllNoComma ps

split_piece : (p : String) → NoComma p → split p ≡ p ∷ []
unfolding split
split_piece [] h = refl
split_piece (c ∷ s) h = ground (arith, split_piece s h.1)

split_at_comma :
    (p s : String) → NoComma p → split (String.◌++◌ p (String.◌++◌ "," s)) ≡ p ∷ split s
unfolding split
split_at_comma [] s h = rw (nil-append, cons-append, nil-append)
split_at_comma (c ∷ p) s h = rw cons-append (ground (arith, split_at_comma p s h.1))

-- Pieces that hold no comma come back, if there is one at least.
pub split-join :
    (p : String) (ps : List String) → AllNoComma (p ∷ ps) → split (join "," (p ∷ ps)) ≡ p ∷ ps
unfolding join
split-join p [] h = split_piece p h.0
split-join p (q ∷ ps) h =
    split_at_comma p (join "," (q ∷ ps)) h.0 ∙ ap (λ r. p ∷ r) (split-join q ps h.1)

onto_first-AllNoComma :
    (c : Char) (ps : List String)
    → is_comma c ≡ false
    → AllNoComma ps
    → AllNoComma (onto_first c ps)
onto_first-AllNoComma c [] h k = ((h, tt), tt)
onto_first-AllNoComma c (p ∷ ps) h k = ((h, k.0), k.1)

pub split-AllNoComma : (s : String) → AllNoComma (split s)
unfolding split
split-AllNoComma [] = (tt, tt)
split-AllNoComma (c ∷ s) = elim (Bool-cases (is_comma c)) [
  | inl comma ↦ rw comma (tt, split-AllNoComma s)
  | inr other ↦ rw other (onto_first-AllNoComma c (split s) other (split-AllNoComma s))
]

pub filter-AllNoComma :
    (p : String → Bool) (ps : List String) → AllNoComma ps → AllNoComma (filter p ps)
filter-AllNoComma p [] h = tt
filter-AllNoComma p (x ∷ ps) h = elim (Bool-cases (p x)) [
  | inl kept ↦ rw (kept, filter) (h.0, filter-AllNoComma p ps h.1)
  | inr dropped ↦ rw (dropped, filter) (filter-AllNoComma p ps h.1)
]
