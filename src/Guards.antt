-- ===== src/Guards.antt =====
-- Who may call a route: `JwtSecurity.validate` (src/auth/security/jwt.security.ts), `RolesGuard`
-- (src/auth/guards/roles.security.jwt.ts) and the decorator `Auth`
-- (src/auth/decorators/auth.decorator.ts).
pub mod Access
use auth_backend.Base.{
  ℕ, String, Bool, true, false, ◌&&◌, Option, none, some, List, [], ◌∷◌, ◌==◌, str_eq, any,
  if◌then◌else◌,
}
use auth_backend.Model.{User, Role, same_role}
use auth_backend.Action.{Action, gets, pure, ◌>>=◌, ◌>>◌}
use auth_backend.Services.{Services, Claims, access, refresh, reset_password, oauth_access}
use auth_backend.Store.{users_table, find_first}

-- The condition `{ id: sub, email, role }`: what a payload lacks is undefined and is left out.
abbrev pub matches_payload : Claims → User → Bool
matches_payload (access sub email role) u =
    u.id == sub && str_eq u.email email && same_role u.role role
matches_payload (refresh sub) u = u.id == sub
matches_payload (reset_password sub) u = u.id == sub
matches_payload (oauth_access sub client_id scope) u = u.id == sub

-- `false` is none.
unfoldable pub validate : Services → Claims → Action (Option User)
validate sv payload = find_first sv users_table (matches_payload payload)

-- The roles of the route, which may be unset, and the user of the request.
unfoldable pub can_activate : Option (List Role) → Option User → Bool
can_activate none u = true
can_activate (some roles) none = false
can_activate (some roles) (some u) = any (λ r. same_role r u.role) roles

-- The guards that `Auth(...roles)` puts on a route: `AuthGuard('jwt')`, which needs a valid token
-- and a user, and `RolesGuard` where roles are given.
unfoldable pub authorize : Services → ℕ → List Role → Option String → Action (Option User)
unfolding validate can_activate
authorize sv now roles none = pure none
authorize sv now roles (some bearer) = elim (sv.verify bearer now) [
  | none ↦ pure none
  | some payload ↦ do
    u ← validate sv payload
    pure (elim roles [ [] ↦ u | r ∷ rs ↦ if can_activate (some (r ∷ rs)) u then u else none ])
]
