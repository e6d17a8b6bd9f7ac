-- ===== src/Store/Rows.antt =====
-- Laws of the rows after a write, and of the queries on them.
use auth_backend.Base.{
  ◌≡◌, refl, ap, Bool, true, false, ◌&&◌, Bool-cases, List, [], ◌∷◌, Memᴰ, any, any-mem,
  if◌then◌else◌, arith, some, none, Option-cases, inl, inr,
}
use auth_backend.Services.{Services}
use auth_backend.Store.{replace}

module _ {R : Type 0} where
  -- Where a row goes.
  pub mem-replace :
      (p : R → Bool) (change : R → R) (rows : List R) (r : R)
      → Memᴰ r rows
      → Memᴰ (if p r then change r else r) (replace p change rows)
  mem-replace p change [] r m = elim m [ ]
  mem-replace p change (x ∷ xs) r (Memᴰ.head e) =
      Memᴰ.head (ap (λ y. if p y then change y else y) e)
  mem-replace p change (x ∷ xs) r (Memᴰ.tail m) = Memᴰ.tail (mem-replace p change xs r m)

  -- Where a row comes from.
  pub replace-mem :
      (p : R → Bool) (change : R → R) (rows : List R) (s : R)
      → Memᴰ s (replace p change rows)
      → (r : R) × Memᴰ r rows × (s ≡ (if p r then change r else r))
  replace-mem p change [] s m = elim m [ ]
  replace-mem p change (x ∷ xs) s (Memᴰ.head e) = (x, Memᴰ.head refl, e)
  replace-mem p change (x ∷ xs) s (Memᴰ.tail m) =
      let (r, n, e) = replace-mem p change xs s m in (r, Memᴰ.tail n, e)

  -- A test that the change does not touch has the same answer after it.
  pub any-replace :
      (p q : R → Bool) (change : R → R) (rows : List R)
      → ((r : R) → q (change r) ≡ q r)
      → any q (replace p change rows) ≡ any q rows
  any-replace p q change [] h = refl
  any-replace p q change (x ∷ xs) h = ground (arith, h x, any-replace p q change xs h)

  -- Rows that all pass or all fail a test after the change, and fail it unchanged.
  pub any-replace_all :
      (p q : R → Bool) (change : R → R) (b : Bool) (rows : List R)
      → ((r : R) → p r ≡ true → q (change r) ≡ b)
      → ((r : R) → p r ≡ false → q r ≡ false)
      → any q (replace p change rows) ≡ (any p rows && b)
  any-replace_all p q change b [] met unmet = refl
  any-replace_all p q change b (x ∷ xs) met unmet =
      let rest = any-replace_all p q change b xs met unmet in
      elim (Bool-cases (p x)) [
        | inl here ↦ rw (here, if◌then◌else◌, met x here, rest) (ground arith)
        | inr away ↦ rw (away, if◌then◌else◌, unmet x away, rest) refl
      ]

  -- A test that the change of a row makes no difference to.
  pub any-replace_others :
      (p q : R → Bool) (change : R → R) (rows : List R)
      → ((r : R) → p r ≡ true → q (change r) ≡ q r)
      → any q (replace p change rows) ≡ any q rows
  any-replace_others p q change [] same = refl
  any-replace_others p q change (x ∷ xs) same =
      let rest = any-replace_others p q change xs same in
      elim (Bool-cases (p x)) [
        | inl here ↦ rw (here, if◌then◌else◌, same x here, rest) refl
        | inr away ↦ rw (away, if◌then◌else◌, rest) refl
      ]

  module _ (sv : Services) where
    -- A row that was found is there for a write by a condition that it meets.
    pub any_found :
        (p q : R → Bool) (rows : List R) (r : R)
        → sv.find_first p rows ≡ some r
        → q r ≡ true
        → any q rows ≡ true
    any_found p q rows r e h = any-mem q r rows (sv.find_first_some p rows e).0 h

    pub find_first-eq-none :
        (p : R → Bool) (rows : List R)
        → ((r : R) → Memᴰ r rows → p r ≡ false)
        → sv.find_first p rows ≡ none
    find_first-eq-none p rows h = elim (Option-cases (sv.find_first p rows)) [
      | inl missing ↦ missing
      | inr (r, e) ↦ let (m, yes_p) = sv.find_first_some p rows e in cc (h r m)
    ]

    pub find_first-eq-some :
        (p : R → Bool) (rows : List R) (r : R)
        → Memᴰ r rows
        → p r ≡ true
        → (s : R) × (sv.find_first p rows ≡ some s)
    find_first-eq-some p rows r m h = elim (Option-cases (sv.find_first p rows)) [
      | inl missing ↦ cc (sv.find_first_none p rows missing r m)
      | inr found ↦ found
    ]
