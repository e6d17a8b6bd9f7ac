-- ===== src/Assistant/Models/Sync.antt =====
-- What the synchronisation of the models achieves (`bulkAddModels` of
-- src/intelligence/intelligence.service.ts).
use mathlib.Core.List.Memᴰ
use mathlib.Core.Path.{subst}
use auth_backend.Base.{
  ◌+◌, ◌≡◌, refl, ap, sym, ◌∙◌, ◌⊎◌, String, Bool, true, false, not, List, [], ◌∷◌, ◌++◌, Memᴰ, any,
  inl, inr, Bool-cases, arith, if◌then◌else◌, mem-any, eq_iff,
}
use auth_backend.Model.{World}
use auth_backend.Model.Ai.{ModelPricing}
use auth_backend.Action.{ok}
use auth_backend.Services.{Services}
use auth_backend.Store.{replace}
use auth_backend.Store.Rows.{mem-replace, replace-mem}
use auth_backend.Assistant.Models.{
  has_name, has_model, is_outdated, inactive, from_enum, is_value, create_models, to_create,
  bulk_add_models,
}

-- A record with a name and a model.
abbrev Has : List ModelPricing → String → String → Type 0
Has rows name model = (r : ModelPricing) × Memᴰ r rows × (r.name ≡ name) × (r.model ≡ model)

-- The names and models of one world's records are those of records of the other.
abbrev Keeps : World → World → Type 0
Keeps w v =
    (name model : String) → Has w.ai.model_pricings name model → Has v.ai.model_pricings name model

deactivate-Has :
    (p : ModelPricing → Bool) (rows : List ModelPricing) (name model : String)
    → Has rows name model
    → Has (replace p inactive rows) name model
deactivate-Has p rows name model (r, m, e, f) =
    let n = mem-replace {R = ModelPricing} p inactive rows r m in
    elim (Bool-cases (p r)) [
      | inl here ↦ (
        inactive r,
        subst (λ x. Memᴰ x (replace p inactive rows)) (rw (here, if◌then◌else◌) refl) n,
        e,
        f,
      )
      | inr away ↦
          (r, subst (λ x. Memᴰ x (replace p inactive rows)) (rw (away, if◌then◌else◌) refl) n, e, f)
    ]

create_models_adds :
    (ms : List (String × String)) (w : World)
    → (v : World) × (create_models ms w ≡ (ok tt, v))
      × Keeps w v
      × ((name model : String) → Memᴰ (name, model) ms → Has v.ai.model_pricings name model)
create_models_adds [] w = (w, refl, λ name model h. h, λ name model m. elim m [ ])
create_models_adds ((n, m) ∷ ms) w =
    let (v, e, kept, added) = create_models_adds ms started in
    (
      v,
      e,
      λ name model (r, k, a, b). kept name model (r, Memᴰ.append_left (row ∷ []) k, a, b),
      λ name model k. elim (Memᴰ.cases_cons k) [
        | inl same ↦ kept name model (
          row,
          Memᴰ.append_right w.ai.model_pricings (Memᴰ.head refl),
          sym (ap (λ p. p.0) same),
          sym (ap (λ p. p.1) same),
        )
        | inr later ↦ added name model later
      ],
    )
  where
    row : ModelPricing
    row = from_enum (n, m) w.next_id

    started : World
    started =
        let a = w.ai in
        record w {
          next_id = w.next_id + 1;
          ai = record a { model_pricings = a.model_pricings ++ row ∷ [] };
        }

module _ (sv : Services) where
  to_create_finds :
      (models : List (String × String)) (w : World)
      → (missing : List (String × String)) × (v : World) × (to_create sv models w ≡ (ok missing, v))
        × Keeps w v
        × ((name model : String)
            → Memᴰ (name, model) models
            → Memᴰ (name, model) missing ⊎ Has v.ai.model_pricings name model)
  to_create_finds [] w = ([], w, refl, (λ name model h. h), λ name model m. elim m [ ])
  to_create_finds ((n, m) ∷ rest) w =
      elim (Bool-cases (any (has_model m) (sv.find_many (has_name n) w.ai.model_pricings))) [
        | inl there ↦
            let (missing, v, e, kept, found) = to_create_finds rest w in
            (
              missing,
              v,
              rw (there, if◌then◌else◌, e) refl,
              kept,
              λ name model k. elim (Memᴰ.cases_cons k) [
                | inl same ↦ inr (
                    kept name model
                      (exact n m there name model (ap (λ p. p.0) same) (ap (λ p. p.1) same)))
                | inr later ↦ found name model later
              ],
            )
        | inr absent ↦
            let (missing, v, e, kept, found) = to_create_finds rest (outdated n m) in
            (
              (n, m) ∷ missing,
              v,
              rw (absent, if◌then◌else◌, e) refl,
              (λ name model h.
                  kept name model
                    (deactivate-Has (is_outdated n m) w.ai.model_pricings name model h)),
              λ name model k. elim (Memᴰ.cases_cons k) [
                | inl same ↦ inl (Memᴰ.head same)
                | inr later ↦ elim (found name model later) [
                  | inl l ↦ inl (Memᴰ.tail l)
                  | inr h ↦ inr h
                ]
              ],
            )
      ]
    where
      outdated : String → String → World
      outdated n m =
          let a = w.ai in
          record w {
            ai = record a { model_pricings = replace (is_outdated n m) inactive a.model_pricings };
          }

      exact :
          (n m : String)
          → any (has_model m) (sv.find_many (has_name n) w.ai.model_pricings) ≡ true
          → (name model : String) → name ≡ n
          → model ≡ m
          → Has w.ai.model_pricings name model
      exact n m there name model is_n is_m =
          let (r, k, e) =
            mem-any (has_model m) (sv.find_many (has_name n) w.ai.model_pricings) there in
          let (l, f) = sv.find_many_sound (has_name n) w.ai.model_pricings r k in
          (r, l, (eq_iff r.name n).0 f ∙ sym is_n, (eq_iff r.model m).0 e ∙ sym is_m)

-- After a synchronisation with the members of an enumeration, which succeeds, there is a record with
-- the name and the value of each member, and the model of every active record is the value of a
-- member.
pub bulk_add_models_synchronises :
    (sv : Services) (models : List (String × String)) (w : World)
    → let out = bulk_add_models sv models w in
      (out.0 ≡ ok tt)
      × ((name model : String)
          → Memᴰ (name, model) models
          → (r : ModelPricing) × Memᴰ r out.1.ai.model_pricings
            × (r.name ≡ name)
            × (r.model ≡ model))
      × ((r : ModelPricing)
          → Memᴰ r out.1.ai.model_pricings
          → r.active ≡ true
          → is_value models r ≡ true)
unfolding bulk_add_models
bulk_add_models_synchronises sv models w =
    let (missing, v, e, kept, found) = to_create_finds sv models w in
    let (u, f, kept_too, added) = create_models_adds missing v in
    rw (e, f)
      (
        refl,
        λ name model m.
            deactivate-Has (λ r. not (is_value models r)) u.ai.model_pricings name model
              (elim (found name model m) [
                | inl new ↦ added name model new
                | inr there ↦ kept_too name model there
              ]),
        λ r m on.
            let (x, k, same) =
              replace-mem (λ r. not (is_value models r)) inactive u.ai.model_pricings r m in
            still x r same on (Bool-cases (is_value models x)),
      )
  where
    still :
        (x r : ModelPricing)
        → r ≡ (if not (is_value models x) then inactive x else x)
        → r.active ≡ true
        → (is_value models x ≡ true) ⊎ (is_value models x ≡ false)
        → is_value models r ≡ true
    still x r same on (inl value) =
        let kept : r ≡ x = same ∙ rw (value, if◌then◌else◌) refl in
        ap (λ (y : ModelPricing). is_value models y) kept ∙ value
    still x r same on (inr other) =
        let off : r ≡ inactive x = same ∙ rw (other, if◌then◌else◌) refl in
        absurd (ground (arith, on, ap (λ (y : ModelPricing). y.active) off))
