-- ===== src/Guards/Access.antt =====
-- Who gets through the guards that `Auth(...roles)` puts on a route.
use mathlib.Core.Path.{subst}
use auth_backend.Base.{
  ℕ, String, ◌≡◌, true, some, List, [], ◌∷◌, Memᴰ, any, Bool-cases, Option-cases, inl, inr, arith,
  ==_iff, ==_refl,
}
use auth_backend.Model.{User, Role, same_role, World}
use auth_backend.Action.{ok}
use auth_backend.Services.{Services, Claims, refresh}
use auth_backend.Guards.{matches_payload, validate, can_activate, authorize}

module _ (sv : Services) (now : ℕ) where
  -- What a request that got through has: a valid token, a user that it names, and a role.
  pub record Authorized (role : Role) (roles : List Role) (bearer : String) (w : World) (u : User)
      : Type 0 where
    pub payload : Claims
    pub valid : sv.verify bearer now ≡ some payload
    pub listed : Memᴰ u w.users
    pub named : matches_payload payload u ≡ true
    pub allowed : any (λ r. same_role r u.role) (role ∷ roles) ≡ true

  -- Where the guards of a route with roles let a request through as a user, its bearer token is
  -- valid at this time, the user is a row of the table that has the id, the email and the role that
  -- the token names (those of them that it names), and the user has one of the roles of the route.
  pub authorize-Authorized :
      (role : Role) (roles : List Role) (bearer : String) (w : World) (u : User)
      → (authorize sv now (role ∷ roles) (some bearer) w).0 ≡ ok (some u)
      → Authorized role roles bearer w u
  unfolding authorize validate can_activate
  authorize-Authorized role roles bearer w u done = elim (Option-cases (sv.verify bearer now)) [
    | inl invalid ↦ absurd (ground arith)
    | inr (payload, valid) ↦ elim (Option-cases (sv.find_first (matches_payload payload) w.users)) [
      | inl missing ↦ absurd (ground arith)
      | inr (found, is_found) ↦
          elim (Bool-cases (any (λ r. same_role r found.role) (role ∷ roles))) [
            | inl has_role ↦
                let same_user : found ≡ u = ground arith in
                let (m, e) = sv.find_first_some (matches_payload payload) w.users is_found in
                record {
                  payload = payload;
                  valid = valid;
                  listed = subst (λ v. Memᴰ v w.users) same_user m;
                  named = subst (λ v. matches_payload payload v ≡ true) same_user e;
                  allowed =
                      subst (λ (v : User). any (λ r. same_role r v.role) (role ∷ roles) ≡ true)
                        same_user has_role;
                }
            | inr lacks ↦ absurd (ground arith)
          ]
    ]
  ]

  -- A token that names no email and no role, such as a refresh token, is let through as a bearer
  -- token of the user it names, on every route that asks for no role.
  authorize-refresh_token :
      (bearer : String) (w : World) (u : User) (i : ℕ)
      → sv.verify bearer now ≡ some (refresh i)
      → Memᴰ u w.users
      → u.id ≡ i
      → ((v : User) → Memᴰ v w.users → v.id ≡ i → v ≡ u)
      → (authorize sv now [] (some bearer) w).0 ≡ ok (some u)
  unfolding authorize validate can_activate
  authorize-refresh_token bearer w u i valid listed id_is unique =
      elim (Option-cases (sv.find_first (matches_payload (refresh i)) w.users)) [
        | inl missing ↦ absurd (
            ground (
              arith,
              sv.find_first_none (matches_payload (refresh i)) w.users missing u listed,
              ==_refl i,
            ))
        | inr (v, found) ↦
            let (m, e) = sv.find_first_some (matches_payload (refresh i)) w.users found in
            let same : v ≡ u = unique v m (ground (arith, ==_iff v.id i)) in ground arith
      ]
