-- ===== src/Auth/Mfa/Codes.antt =====
-- The backup codes, as they are drawn, stored and used up.
use auth_backend.Base.{
  ℕ, zero, suc, ◌+◌, String, ◌≡◌, ◌≢◌, refl, false, not, List, [], ◌∷◌, arith, eq_iff, str_eq,
  includes,
}
use auth_backend.Base.Text.{split, join}
use auth_backend.Base.Text.Split.{
  NoComma, AllNoComma, split-join, split-AllNoComma, filter-AllNoComma,
}
use auth_backend.Auth.Mfa.{draw_codes, generate_backup_codes, without}

draw_codes-AllNoComma :
    (fresh : ℕ → String)
    → ((i : ℕ) → NoComma (fresh i))
    → (i n : ℕ) → AllNoComma (draw_codes fresh i n)
draw_codes-AllNoComma fresh plain i zero = tt
draw_codes-AllNoComma fresh plain i (suc n) = (plain i, draw_codes-AllNoComma fresh plain (i + 1) n)

-- Reading the stored text back gives the ten codes that were drawn, in order. Condition: no drawn
-- text holds a comma, as hexadecimal digits do not.
pub split-generate_backup_codes :
    (fresh : ℕ → String)
    → ((i : ℕ) → NoComma (fresh i))
    → split (generate_backup_codes fresh) ≡ draw_codes fresh 0 10
unfolding generate_backup_codes
split-generate_backup_codes fresh plain =
    split-join (fresh 0) (draw_codes fresh 1 9) (draw_codes-AllNoComma fresh plain 0 10)

includes-without :
    (code : String) (codes : List String) → includes (without code codes) code ≡ false
includes-without code [] = refl
includes-without code (c ∷ codes) = ground (arith, includes-without code codes)

no_codes_left : split (join "," []) ≡ "" ∷ []
unfolding split join
no_codes_left = refl

-- What is stored after a code was used does not hold that code. Condition: the code is not empty.
pub used_code_is_gone :
    (code stored : String)
    → code ≢ ""
    → includes (split (join "," (without code (split stored)))) code ≡ false
used_code_is_gone code stored nonempty =
    go (without code (split stored)) (includes-without code (split stored))
      (filter-AllNoComma (λ c. not (str_eq c code)) (split stored) (split-AllNoComma stored))
  where
    go :
        (codes : List String)
        → includes codes code ≡ false
        → AllNoComma codes
        → includes (split (join "," codes)) code ≡ false
    go [] out plain = rw no_codes_left (ground (arith, eq_iff "" code))
    go (c ∷ codes) out plain = rw (split-join c codes plain) out
