-- ===== src/Tests/Fixtures/Ordered.antt =====
-- A query with an order, by insertion.
use mathlib.Core.List.Memᴰ
use auth_backend.Base.{
  ℕ, ◌≡◌, ◌⊎◌, refl, Bool, true, List, [], ◌∷◌, Memᴰ, IsDescending, Bool-cases, inl, inr, arith,
  leb, if◌then◌else◌, filter, length, ◌+◌, ◌≤◌, IsAscending,
}
use mathlib.Core.List.{reverse, reverse_aux}

split_head : {R : Type 0} (s x : R) (xs : List R) → Memᴰ s (x ∷ xs) → (s ≡ x) ⊎ Memᴰ s xs
split_head s x xs (Memᴰ.head e) = inl e
split_head s x xs (Memᴰ.tail m) = inr m

module _ {R : Type 0} (key : R → ℕ) where
  -- In front of the first row that is not greater.
  abbrev pub place : R → List R → List R
  place r [] = r ∷ []
  place r (x ∷ xs) = if leb (key x) (key r) then r ∷ x ∷ xs else x ∷ place r xs

  place-mem : (r s : R) (rows : List R) → Memᴰ s (place r rows) → (s ≡ r) ⊎ Memᴰ s rows
  place-mem r s [] m = inl (Memᴰ.eq_of_singleton m)
  place-mem r s (x ∷ xs) m = elim (Bool-cases (leb (key x) (key r))) [
    | inl here ↦ split_head s r (x ∷ xs) (rw here at m)
    | inr later ↦ elim (split_head s x (place r xs) (rw later at m)) [
      | inl same ↦ inr (Memᴰ.head same)
      | inr n ↦ elim (place-mem r s xs n) [ inl same ↦ inl same | inr k ↦ inr (Memᴰ.tail k) ]
    ]
  ]

  mem-place_self : (r : R) (rows : List R) → Memᴰ r (place r rows)
  mem-place_self r [] = Memᴰ.head refl
  mem-place_self r (x ∷ xs) = elim (Bool-cases (leb (key x) (key r))) [
    | inl here ↦ rw here (Memᴰ.head refl)
    | inr later ↦ rw later (Memᴰ.tail (mem-place_self r xs))
  ]

  mem-place : (r s : R) (rows : List R) → Memᴰ s rows → Memᴰ s (place r rows)
  mem-place r s [] m = elim m [ ]
  mem-place r s (x ∷ xs) m = elim (Bool-cases (leb (key x) (key r))) [
    | inl here ↦ rw here (Memᴰ.tail m)
    | inr later ↦ rw later (elim (split_head s x xs m) [
      | inl same ↦ Memᴰ.head same
      | inr n ↦ Memᴰ.tail (mem-place r s xs n)
    ])
  ]

  place-IsDescending :
      (r : R) (rows : List R) → IsDescending key rows → IsDescending key (place r rows)
  place-IsDescending r [] d = (λ y m. elim m [ ], tt)
  place-IsDescending r (x ∷ xs) (most, d) = elim (Bool-cases (leb (key x) (key r))) [
    | inl here ↦ rw here (
      λ y m. elim (split_head y x xs m) [
        | inl same ↦ rw same (ground arith)
        | inr n ↦ ground (arith, most y n)
      ],
      (most, d),
    )
    | inr later ↦ rw later (
      λ y m. elim (place-mem r y xs m) [ inl same ↦ rw same (ground arith) | inr n ↦ most y n ],
      place-IsDescending r xs d,
    )
  ]

  module _ (p : R → Bool) where
    abbrev pub ordered : List R → List R
    ordered [] = []
    ordered (x ∷ xs) = let rest = ordered xs in if p x then place x rest else rest

    pub ordered-mem : (rows : List R) (r : R) → Memᴰ r (ordered rows) → Memᴰ r rows × (p r ≡ true)
    ordered-mem [] r m = elim m [ ]
    ordered-mem (x ∷ xs) r m = elim (Bool-cases (p x)) [
      | inl kept ↦ elim (place-mem x r (ordered xs) (rw kept at m)) [
        | inl same ↦ (Memᴰ.head same, rw same kept)
        | inr n ↦ let (k, h) = ordered-mem xs r n in (Memᴰ.tail k, h)
      ]
      | inr dropped ↦ let (k, h) = ordered-mem xs r (rw dropped at m) in (Memᴰ.tail k, h)
    ]

    pub mem-ordered : (rows : List R) (r : R) → Memᴰ r rows → p r ≡ true → Memᴰ r (ordered rows)
    mem-ordered [] r m h = elim m [ ]
    mem-ordered (x ∷ xs) r m h = elim (Bool-cases (p x)) [
      | inl kept ↦ rw kept (elim (split_head r x xs m) [
        | inl same ↦ rw same (mem-place_self x (ordered xs))
        | inr n ↦ mem-place x r (ordered xs) (mem-ordered xs r n h)
      ])
      | inr dropped ↦
          rw dropped (elim (split_head r x xs m) [ inl same ↦ cc | inr n ↦ mem-ordered xs r n h ])
    ]

    pub ordered-IsDescending : (rows : List R) → IsDescending key (ordered rows)
    ordered-IsDescending [] = tt
    ordered-IsDescending (x ∷ xs) = elim (Bool-cases (p x)) [
      | inl kept ↦ rw kept (place-IsDescending x (ordered xs) (ordered-IsDescending xs))
      | inr dropped ↦ rw dropped (ordered-IsDescending xs)
    ]

    length-filter-place :
        (q : R → Bool) (r : R) (rows : List R)
        → length (filter q (place r rows)) ≡ length (filter q (r ∷ rows))
    length-filter-place q r [] = refl
    length-filter-place q r (x ∷ xs) = ground (arith, length-filter-place q r xs)

    length-filter-ordered :
        (q : R → Bool) (rows : List R)
        → length (filter q (ordered rows)) ≡ length (filter q (filter p rows))
    length-filter-ordered q [] = refl
    length-filter-ordered q (x ∷ xs) =
        ground (arith, length-filter-ordered q xs, length-filter-place q x (ordered xs))

    -- The smaller keys first.
    abbrev pub ascending : List R → List R
    ascending rows = reverse (ordered rows)

    length-filter-reverse_aux :
        (q : R → Bool) (rows acc : List R)
        → length (filter q (reverse_aux rows acc)) ≡ length (filter q rows) + length (filter q acc)
    length-filter-reverse_aux q [] acc = omega arith
    length-filter-reverse_aux q (x ∷ xs) acc =
        ground (arith, length-filter-reverse_aux q xs (x ∷ acc))

    pub length-filter-ascending :
        (q : R → Bool) (rows : List R)
        → length (filter q (ascending rows)) ≡ length (filter q (filter p rows))
    length-filter-ascending q rows =
        omega (arith, length-filter-reverse_aux q (ordered rows) [], length-filter-ordered q rows)

    reverse_aux-IsAscending :
        (rows acc : List R)
        → IsDescending key rows
        → IsAscending key acc
        → ((x y : R) → Memᴰ x rows → Memᴰ y acc → key x ≤ key y)
        → IsAscending key (reverse_aux rows acc)
    reverse_aux-IsAscending [] acc d a below = a
    reverse_aux-IsAscending (x ∷ xs) acc (most, d) a below =
        reverse_aux-IsAscending xs (x ∷ acc) d (λ y m. below x y (Memᴰ.head refl) m, a)
          (λ z y m n. elim (split_head y x acc n) [
            | inl same ↦ rw same (most z m)
            | inr later ↦ below z y (Memᴰ.tail m) later
          ])

    pub ascending-IsAscending : (rows : List R) → IsAscending key (ascending rows)
    ascending-IsAscending rows =
        reverse_aux-IsAscending (ordered rows) [] (ordered-IsDescending rows) tt
          (λ x y m n. elim n [ ])
