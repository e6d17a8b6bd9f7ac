-- ===== src/Action.antt =====
-- A handler of the service: it reads and writes the world and may throw. What was written before
-- a throw stays written, so the world comes back beside the exception too.
pub mod Along
use auth_backend.Base.{
  ◌≡◌, ◌⊎◌, inl, inr, refl, ap, String, Bool, true, false, Option, none, some, if◌then◌else◌, [],
  ◌∷◌,
}
use auth_backend.Base.Text.{concat}
use auth_backend.Model.{World}

-- The exceptions of `@nestjs/common` with their messages, plain errors, the errors of Prisma for
-- a unique constraint, for a foreign key and for a missing record, and the TypeError of reading a field of null.
pub data Exception : Type 0 where
  unauthorized bad_request conflict not_found plain_error : String → Exception
  unique_violation reference_violation record_missing type_error : Exception

pub data Result (A : Type 0) : Type 0 where
  ok : A → Result A
  err : Exception → Result A

-- The errors of Prisma for a text that is no date and time, and for a column that there is not.
abbrev pub invalid_date : Exception
invalid_date = plain_error "Invalid value for argument `birthdate`"

abbrev pub unknown_argument : String → Exception
unknown_argument name = plain_error (concat ("Unknown argument `" ∷ name ∷ "`" ∷ []))

abbrev pub Action : Type 0 → Type 0
Action A = World → Result A × World

module _ {A : Type 0} where
  abbrev pub pure : A → Action A
  pure a w = (ok a, w)

  abbrev pub raise : Exception → Action A
  raise e w = (err e, w)

  abbrev pub gets : (World → A) → Action A
  gets f w = (ok (f w), w)

  abbrev pub or_raise : Option A → Exception → Action A
  or_raise none e = raise e
  or_raise (some a) e = pure a

-- The rest of a handler, from the outcome of its first part.
abbrev pub continue : {A B : Type 0} → (A → Action B) → Result A × World → Result B × World
continue f (ok a, w) = f a w
continue f (err e, w) = (err e, w)

infixl 5 ◌>>=◌ ◌>>◌
abbrev pub ◌>>=◌ : {A B : Type 0} → Action A → (A → Action B) → Action B
◌>>=◌ m f w = continue f (m w)

abbrev pub ◌>>◌ : {A B : Type 0} → Action A → Action B → Action B
m >> k = m >>= λ _. k

abbrev pub raise_if : Bool → Exception → Action (Unit {0})
raise_if c e w = (if c then err e else ok tt, w)

abbrev pub modify : (World → World) → Action (Unit {0})
modify f w = (ok tt, f w)

abbrev pub lift : {A : Type 0} → Result A → Action A
lift r w = (r, w)

-- A call whose exception nothing waits for.
abbrev pub detached : {A : Type 0} → Action A → Action (Unit {0})
detached m w = (ok tt, (m w).1)

-- `try { m } catch { k }`.
abbrev pub recover_from : {A : Type 0} → Action A → Result A × World → Result A × World
recover_from k (ok a, w) = (ok a, w)
recover_from k (err e, w) = k w

abbrev pub recover : {A : Type 0} → Action A → Action A → Action A
recover m k w = recover_from k (m w)

pub Result-cases :
    {A : Type 0} (r : Result A) → ((e : Exception) × (r ≡ err e)) ⊎ ((a : A) × (r ≡ ok a))
Result-cases (ok a) = inr (a, refl)
Result-cases (err e) = inl (e, refl)

-- Whether a handler returned.
abbrev pub succeeds : {A : Type 0} → Result A → Bool
succeeds (ok a) = true
succeeds (err e) = false

-- One step of a handler whose first part returned, or threw.
module _ {A B : Type 0} (m : Action A) (f : A → Action B) {w w₁ : World} where
  pub bind-ok : {a : A} → m w ≡ (ok a, w₁) → (m >>= f) w ≡ f a w₁
  bind-ok e = ap (continue f) e

  pub bind-err : {e : Exception} → m w ≡ (err e, w₁) → (m >>= f) w ≡ (err e, w₁)
  bind-err e = ap (continue f) e
