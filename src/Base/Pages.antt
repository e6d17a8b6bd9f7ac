-- ===== src/Base/Pages.antt =====
-- Members and lengths of `slice`, `take` and `reverse` of arrays.
use Prim.Native.Nat.{ℕ, zero, suc, ◌+◌, ◌≤◌}
use mathlib.Core.List.Memᴰ
use mathlib.Core.Path.{◌≡◌, refl}
use mathlib.Core.Logic.{◌⊎◌, inl, inr}
use mathlib.Core.List.{List, [], ◌∷◌, Memᴰ, reverse, reverse_aux}
use native.Mathlib.Omega.{arith}
use auth_backend.Base.Lists.{length, take, drop}

module _ {ℓ} {A : Type ℓ} where
  pub length-take : (n : ℕ) (xs : List A) → length (take n xs) ≤ n
  length-take zero xs = omega arith
  length-take (suc n) [] = omega arith
  length-take (suc n) (x ∷ xs) = omega (arith, length-take n xs)

  pub take-nil : (n : ℕ) → take {A = A} n [] ≡ []
  take-nil zero = refl
  take-nil (suc n) = refl

  pub drop-nil : (n : ℕ) → drop {A = A} n [] ≡ []
  drop-nil zero = refl
  drop-nil (suc n) = refl

  pub mem-take : (n : ℕ) (xs : List A) {x : A} → Memᴰ x (take n xs) → Memᴰ x xs
  mem-take zero xs m = elim m [ ]
  mem-take (suc n) [] m = m
  mem-take (suc n) (y ∷ ys) (Memᴰ.head e) = Memᴰ.head e
  mem-take (suc n) (y ∷ ys) (Memᴰ.tail m) = Memᴰ.tail (mem-take n ys m)

  pub mem-drop : (n : ℕ) (xs : List A) {x : A} → Memᴰ x (drop n xs) → Memᴰ x xs
  mem-drop zero xs m = m
  mem-drop (suc n) [] m = m
  mem-drop (suc n) (y ∷ ys) m = Memᴰ.tail (mem-drop n ys m)

  length-reverse_aux : (xs acc : List A) → length (reverse_aux xs acc) ≡ length xs + length acc
  length-reverse_aux [] acc = omega arith
  length-reverse_aux (x ∷ xs) acc = omega (arith, length-reverse_aux xs (x ∷ acc))

  pub length-reverse : (xs : List A) → length (reverse xs) ≡ length xs
  length-reverse xs = omega (arith, length-reverse_aux xs [])

  mem-reverse_aux : (xs acc : List A) {x : A} → Memᴰ x (reverse_aux xs acc) → Memᴰ x xs ⊎ Memᴰ x acc
  mem-reverse_aux [] acc m = inr m
  mem-reverse_aux (y ∷ ys) acc m = elim (mem-reverse_aux ys (y ∷ acc) m) [
    | inl k ↦ inl (Memᴰ.tail k)
    | inr k ↦ elim (Memᴰ.cases_cons k) [ inl e ↦ inl (Memᴰ.head e) | inr n ↦ inr n ]
  ]

  pub mem-reverse : (xs : List A) {x : A} → Memᴰ x (reverse xs) → Memᴰ x xs
  mem-reverse xs m = elim (mem-reverse_aux xs [] m) [ inl k ↦ k | inr k ↦ elim k [ ] ]

  reverse_aux-mem : (xs acc : List A) {x : A} → Memᴰ x xs ⊎ Memᴰ x acc → Memᴰ x (reverse_aux xs acc)
  reverse_aux-mem [] acc (inl m) = elim m [ ]
  reverse_aux-mem [] acc (inr m) = m
  reverse_aux-mem (y ∷ ys) acc (inl (Memᴰ.head e)) =
      reverse_aux-mem ys (y ∷ acc) (inr (Memᴰ.head e))
  reverse_aux-mem (y ∷ ys) acc (inl (Memᴰ.tail m)) = reverse_aux-mem ys (y ∷ acc) (inl m)
  reverse_aux-mem (y ∷ ys) acc (inr m) = reverse_aux-mem ys (y ∷ acc) (inr (Memᴰ.tail m))

  pub reverse-mem : (xs : List A) {x : A} → Memᴰ x xs → Memᴰ x (reverse xs)
  reverse-mem xs m = reverse_aux-mem xs [] (inl m)
