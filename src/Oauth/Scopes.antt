-- ===== src/Oauth/Scopes.antt =====
-- The scopes of src/auth/models/scopes.model.ts, and `validateScopes` of
-- src/auth/app.oauth.service.ts.
use auth_backend.Base.{
  String, Bool, not, ◌||◌, Option, none, some, List, [], ◌∷◌, includes, filter, if◌then◌else◌,
}
use auth_backend.Base.Text.{concat, join}
use auth_backend.Action.{Action, pure, lift, ◌>>◌}
use auth_backend.Services.{Services}

-- The keys of the record `scopes`; each is its own description.
abbrev pub available_scopes : List String
available_scopes =
    "Access to basic profile information" ∷ "Access to email address" ∷ "Access to photo albums"
    ∷ "Access to video content" ∷ "Maintain persistent access" ∷ []

-- The properties that every object inherits, at which `scopes[scope]` is truthy too.
abbrev inherited_names : List String
inherited_names =
    "constructor" ∷ "hasOwnProperty" ∷ "isPrototypeOf" ∷ "propertyIsEnumerable" ∷ "toLocaleString"
    ∷ "toString" ∷ "valueOf" ∷ "__proto__" ∷ "__defineGetter__" ∷ "__defineSetter__"
    ∷ "__lookupGetter__" ∷ "__lookupSetter__" ∷ []

unfoldable pub is_known_scope : String → Bool
is_known_scope scope = includes available_scopes scope || includes inherited_names scope

-- `scopes[scope]` as the JSON of a reply shows it.
abbrev pub description_of : String → Option String
description_of scope = if includes available_scopes scope then some scope else none

abbrev pub invalid_scopes : List String → List String → List String
invalid_scopes requested allowed =
    filter (λ scope. not (includes allowed scope) || not (is_known_scope scope)) requested

-- A response is made when a scope is invalid, and is dropped by the caller.
unfoldable pub validate_scopes : Services → List String → List String → Action (Unit {0})
validate_scopes sv requested allowed = elim (invalid_scopes requested allowed) [
  | [] ↦ pure tt
  | x ∷ xs ↦ do
    lift (sv.respond 400 (concat ("Invalid scopes: " ∷ join ", " (x ∷ xs) ∷ [])))
    pure tt
]
