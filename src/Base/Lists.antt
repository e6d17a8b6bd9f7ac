-- ===== src/Base/Lists.antt =====
-- Lists under Boolean tests: `some`, `every`, `includes`, `filter` and `length` of arrays.
use Prim.Native.Nat.{ℕ, zero, suc, ◌+◌, ◌≤◌}
use Prim.Native.String.{String}
use mathlib.Core.List.Memᴰ
use mathlib.Core.Path.{◌≡◌, refl, sym, ◌∙◌}
use mathlib.Core.Logic.{◌⊎◌, inl, inr}
use auth_backend.Base.Tests.{Bool-cases, if◌then◌else◌}
use mathlib.Core.Bool.{Bool, not, true, false, ◌&&◌, ◌||◌}
use mathlib.Core.List.{List, [], ◌∷◌, ◌++◌, Memᴰ}
use native.Mathlib.Omega.{arith}
use text.Mathlib.Text.{◌==◌ as str_eq}

module _ {ℓ} {A : Type ℓ} where
  abbrev pub length : List A → ℕ
  length [] = 0
  length (x ∷ xs) = suc (length xs)

  abbrev pub any : (A → Bool) → List A → Bool
  any p [] = false
  any p (x ∷ xs) = p x || any p xs

  abbrev pub all : (A → Bool) → List A → Bool
  all p [] = true
  all p (x ∷ xs) = p x && all p xs

  -- The library's `filter` wants a decision; the code has Boolean tests.
  abbrev pub filter : (A → Bool) → List A → List A
  filter p [] = []
  filter p (x ∷ xs) = elim (p x) [ true ↦ x ∷ filter p xs | false ↦ filter p xs ]

  -- Each key is at least every later one.
  abbrev pub IsDescending : (A → ℕ) → List A → Type ℓ
  IsDescending key [] = Unit
  IsDescending key (x ∷ xs) = ((y : A) → Memᴰ y xs → key y ≤ key x) × IsDescending key xs

  -- Each key is at most every later one.
  abbrev pub IsAscending : (A → ℕ) → List A → Type ℓ
  IsAscending key [] = Unit
  IsAscending key (x ∷ xs) = ((y : A) → Memᴰ y xs → key x ≤ key y) × IsAscending key xs

  abbrev pub take : ℕ → List A → List A
  take zero xs = []
  take (suc n) [] = []
  take (suc n) (x ∷ xs) = x ∷ take n xs

  abbrev pub drop : ℕ → List A → List A
  drop zero xs = xs
  drop (suc n) [] = []
  drop (suc n) (x ∷ xs) = drop n xs

  pub List-cases : (xs : List A) → (xs ≡ []) ⊎ ((x : A) × (ys : List A) × (xs ≡ x ∷ ys))
  List-cases [] = inl refl
  List-cases (x ∷ xs) = inr (x, xs, refl)

  pub any-mem : (p : A → Bool) (x : A) (xs : List A) → Memᴰ x xs → p x ≡ true → any p xs ≡ true
  any-mem p x [] m h = elim m [ ]
  any-mem p x (y ∷ ys) (Memᴰ.head e) h = ground arith
  any-mem p x (y ∷ ys) (Memᴰ.tail m) h = ground (arith, any-mem p x ys m h)

  pub mem-any : (p : A → Bool) (xs : List A) → any p xs ≡ true → (x : A) × Memᴰ x xs × (p x ≡ true)
  mem-any p [] h = absurd (ground arith)
  mem-any p (y ∷ ys) h = elim (Bool-cases (p y)) [
    | inl here ↦ (y, Memᴰ.head refl, here)
    | inr later ↦ let (x, m, e) = mem-any p ys (ground arith) in (x, Memᴰ.tail m, e)
  ]

  pub any-eq-false :
      (p : A → Bool) (xs : List A) → ((x : A) → Memᴰ x xs → p x ≡ false) → any p xs ≡ false
  any-eq-false p xs h = elim (Bool-cases (any p xs)) [
    | inl some_x ↦ let (x, m, e) = mem-any p xs some_x in cc (h x m)
    | inr none_x ↦ none_x
  ]

  pub mem-filter :
      (p : A → Bool) (rows : List A) (r : A) → Memᴰ r (filter p rows) → Memᴰ r rows × (p r ≡ true)
  mem-filter p [] r m = elim m [ ]
  mem-filter p (x ∷ xs) r m = elim (Bool-cases (p x)) [
    | inl here ↦ elim (Memᴰ.cases_cons (rw (here, filter) at m)) [
      | inl same ↦ (Memᴰ.head same, rw same here)
      | inr later ↦ let (n, h) = mem-filter p xs r later in (Memᴰ.tail n, h)
    ]
    | inr out ↦ let (n, h) = mem-filter p xs r (rw (out, filter) at m) in (Memᴰ.tail n, h)
  ]

  pub filter-mem :
      (p : A → Bool) (rows : List A) (r : A) → Memᴰ r rows → p r ≡ true → Memᴰ r (filter p rows)
  filter-mem p [] r m h = elim m [ ]
  filter-mem p (x ∷ xs) r (Memᴰ.head same) h =
      rw ((let e : p x ≡ true = rw (← same) h in e), filter) (Memᴰ.head same)
  filter-mem p (x ∷ xs) r (Memᴰ.tail m) h = elim (Bool-cases (p x)) [
    | inl here ↦ rw (here, filter) (Memᴰ.tail (filter-mem p xs r m h))
    | inr out ↦ rw (out, filter) (filter-mem p xs r m h)
  ]

  -- What a filter by the opposite test leaves.
  pub any-filter-not : (p : A → Bool) (xs : List A) → any p (filter (λ x. not (p x)) xs) ≡ false
  any-filter-not p xs =
      any-eq-false p (filter (λ x. not (p x)) xs)
        (λ x m. ground (arith, (mem-filter (λ x. not (p x)) xs x m).1))

  pub filter_not-mem :
      (p : A → Bool) (rows : List A) (r : A)
      → Memᴰ r rows
      → p r ≡ false
      → Memᴰ r (filter (λ x. not (p x)) rows)
  filter_not-mem p rows r m h = filter-mem (λ x. not (p x)) rows r m (rw h refl)

  pub filter-cong :
      (p q : A → Bool) (xs : List A) → ((x : A) → Memᴰ x xs → p x ≡ q x) → filter p xs ≡ filter q xs
  filter-cong p q [] same = refl
  filter-cong p q (x ∷ xs) same =
      let rest = filter-cong p q xs (λ y m. same y (Memᴰ.tail m)) in
      ground (arith, same x (Memᴰ.head refl), rest)

  pub length-filter-filter :
      (p q : A → Bool) (xs : List A) → length (filter q (filter p xs)) ≤ length (filter q xs)
  length-filter-filter p q [] = omega arith
  length-filter-filter p q (x ∷ xs) = ground (arith, length-filter-filter p q xs)

  pub length-mem : (xs : List A) (x : A) → Memᴰ x xs → 1 ≤ length xs
  length-mem [] x m = elim m [ ]
  length-mem (y ∷ ys) x m = omega arith

  -- A list of at most one element.
  pub only_one : (xs : List A) (x y : A) → length xs ≤ 1 → Memᴰ x xs → Memᴰ y xs → x ≡ y
  only_one [] x y short m n = elim m [ ]
  only_one (z ∷ []) x y short m n = Memᴰ.eq_of_singleton m ∙ sym (Memᴰ.eq_of_singleton n)
  only_one (z ∷ u ∷ zs) x y short m n = absurd (omega (arith, short))

  pub mem-append_one : (xs : List A) (y : A) {x : A} → Memᴰ x (xs ++ y ∷ []) → Memᴰ x xs ⊎ (x ≡ y)
  mem-append_one xs y m = elim (Memᴰ.append_cases xs m) [
    | inl k ↦ inl k
    | inr k ↦ inr (Memᴰ.eq_of_singleton k)
  ]

  pub any-append : (p : A → Bool) (xs ys : List A) → any p (xs ++ ys) ≡ (any p xs || any p ys)
  any-append p [] ys = refl
  any-append p (x ∷ xs) ys = ground (arith, any-append p xs ys)

  pub length-filter-append :
      (p : A → Bool) (xs : List A) (y : A)
      → length (filter p (xs ++ y ∷ [])) ≡ length (filter p xs) + (if p y then 1 else 0)
  length-filter-append p [] y = ground arith
  length-filter-append p (x ∷ xs) y = ground (arith, length-filter-append p xs y)

abbrev pub includes : List String → String → Bool
includes xs s = any (λ x. str_eq x s) xs
