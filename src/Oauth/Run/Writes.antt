-- ===== src/Oauth/Run/Writes.antt =====
-- What each request to the provider does to the table of authorization codes.
use auth_backend.Base.{
  ==_refl, List-cases, ◌+◌, ℕ, String, ◌≡◌, ◌⊎◌, ◌==◌, ◌++◌, ◌∷◌, [], true, false, List, Option,
  any, Option-cases, Bool-cases, inl, inr, arith, truthy, str_eq,
}
use auth_backend.Model.{
  World, AuthorizationCode, OauthClient, OauthClientApplication, HttpContext, AuthorizationRequest,
  TokenRequest,
}
use auth_backend.Base.Text.{concat, join}
use auth_backend.Action.{Result-cases, Exception, ok, err}
use auth_backend.Services.{Services}
use auth_backend.Store.{replace, same_code}
use auth_backend.Store.Rows.{any_found}
use auth_backend.Auth.Session.{user_has_id}
use auth_backend.Oauth.Scopes.{invalid_scopes, validate_scopes}
use auth_backend.Oauth.Clients.{
  client_id_is, client_redirects_to, validate_client, validate_client_credentials,
  register_application, edit_user_application, rotate_client_secret,
}
use auth_backend.Oauth.Consents.{grant_consent, revoke_access}
use auth_backend.Oauth.Tokens.{
  ten_minutes, is_redeemable, handle_refresh_token_grant, handle_authorization_request,
  handle_authorization_code_grant, handle_token_request,
}

module _ (sv : Services) where
  pub grant_consent_keeps :
      (now user_id : ℕ) (client_id : Option String) (scopes : Option (List String)) (w : World)
      → (grant_consent sv now user_id client_id scopes w).1.authorization_codes
        ≡ w.authorization_codes
  unfolding grant_consent
  grant_consent_keeps now user_id client_id scopes w = ground arith

  pub revoke_access_keeps :
      (now user_id : ℕ) (client_id : Option String) (w : World)
      → (revoke_access sv now user_id client_id w).1.authorization_codes ≡ w.authorization_codes
  unfolding revoke_access
  revoke_access_keeps now user_id client_id w = ground arith

  pub register_application_keeps :
      (ctx : HttpContext) (a : OauthClientApplication) (client_id secret salt : String) (w : World)
      → (register_application sv ctx a client_id secret salt w).1.authorization_codes
        ≡ w.authorization_codes
  unfolding register_application
  register_application_keeps ctx a client_id secret salt w = ground arith

  pub edit_user_application_keeps :
      (ctx : HttpContext) (application_id : String) (a : OauthClientApplication) (w : World)
      → (edit_user_application sv ctx application_id a w).1.authorization_codes
        ≡ w.authorization_codes
  unfolding edit_user_application
  edit_user_application_keeps ctx application_id a w = ground arith

  pub rotate_client_secret_keeps :
      (client_id current : Option String) (secret salt : String) (w : World)
      → (rotate_client_secret sv client_id current secret salt w).1.authorization_codes
        ≡ w.authorization_codes
  unfolding rotate_client_secret
  rotate_client_secret_keeps client_id current secret salt w = ground arith

  -- What the two operations that write codes do to the table.
  abbrev pub Marked : World → World → Type 0
  Marked w v =
      (v.authorization_codes ≡ w.authorization_codes)
      ⊎ ((i : ℕ) × (v.authorization_codes
            ≡ replace (λ d. d.id == i) (λ d. record d { used = true }) w.authorization_codes))

  abbrev pub Added : World → World → Type 0
  Added w v =
      (v.authorization_codes ≡ w.authorization_codes)
      ⊎ ((row : AuthorizationCode) × (any (same_code row) w.authorization_codes ≡ false)
          × (v.authorization_codes ≡ w.authorization_codes ++ row ∷ []))

  pub grant-Marked :
      (now : ℕ) (r : TokenRequest) (c : OauthClient) (drawn : String) (w : World)
      → Marked w (handle_authorization_code_grant sv now r c drawn w).1
  unfolding handle_authorization_code_grant
  grant-Marked now r c drawn w = elim (Option-cases (truthy r.code)) [
    | inl missing ↦ inl (ground arith)
    | inr (code, given) ↦
        elim (Option-cases (sv.find_first (is_redeemable now code c.id) w.authorization_codes)) [
          | inl unknown ↦ inl (ground arith)
          | inr (row, found) ↦
              elim (Option-cases (sv.find_first (user_has_id row.user_id) w.users)) [
                | inl nobody ↦ inl (ground arith)
                | inr (u, owner) ↦
                    let there =
                      any_found sv (is_redeemable now code c.id)
                        (λ (d : AuthorizationCode). d.id == row.id) w.authorization_codes row found
                        (==_refl row.id) in
                    inr (row.id, ground arith)
              ]
        ]
  ]

  pub handle_token_request-Marked :
      (now : ℕ) (r : TokenRequest) (drawn : String) (w : World)
      → Marked w (handle_token_request sv now r drawn w).1
  unfolding handle_token_request validate_client_credentials handle_refresh_token_grant
  handle_token_request-Marked now r drawn w = elim (Option-cases (truthy r.client_id)) [
    | inl missing ↦ inl (ground arith)
    | inr (client_id, given) ↦ elim (Option-cases (truthy r.client_secret)) [
      | inl missing ↦ inl (ground arith)
      | inr (secret, has_secret) ↦
          elim (Option-cases (sv.find_first (client_id_is client_id) w.oauth_clients)) [
            | inl unknown ↦ inl (ground arith)
            | inr (c, found) ↦ elim (Bool-cases (str_eq r.grant_type "authorization_code")) [
              | inr other ↦ inl (ground arith)
              | inl is_code ↦ elim (grant-Marked now r c drawn w) [
                | inl same ↦ inl (ground arith)
                | inr (i, marked) ↦ inr (i, ground arith)
              ]
            ]
          ]
    ]
  ]

  pub validate_scopes-cases :
      (requested allowed : List String) (w : World)
      → (validate_scopes sv requested allowed w ≡ (ok tt, w))
        ⊎ ((e : Exception) × (validate_scopes sv requested allowed w ≡ (err e, w)))
  unfolding validate_scopes
  validate_scopes-cases requested allowed w = elim (List-cases (invalid_scopes requested allowed)) [
    | inl nothing ↦ inl (ground (arith, nothing))
    | inr (x, xs, some_invalid) ↦
        elim (Result-cases
          (sv.respond 400 (concat ("Invalid scopes: " ∷ join ", " (x ∷ xs) ∷ [])))) [
            | inl (e, threw) ↦ inr (e, ground (arith, threw, some_invalid))
            | inr (answer, returned) ↦ inl (ground (arith, returned, some_invalid))
          ]
  ]

  pub handle_authorization_request-Added :
      (now : ℕ) (r : AuthorizationRequest) (user_id : ℕ) (code : String) (w : World)
      → Added w (handle_authorization_request sv now r user_id code w).1
  unfolding handle_authorization_request validate_client
  handle_authorization_request-Added now r user_id code w =
      elim (Option-cases
        (sv.find_first (client_redirects_to r.client_id r.redirect_uri) w.oauth_clients)) [
          | inl missing ↦ inl (ground arith)
          | inr (c, found) ↦
              let (listed, redirects) =
                sv.find_first_some (client_redirects_to r.client_id r.redirect_uri) w.oauth_clients
                  found in
              elim (validate_scopes-cases r.scope c.allowed_scopes w) [
                | inr (e, threw) ↦ inl (ground (arith, threw))
                | inl passed ↦
                    elim (Bool-cases
                      (any (λ (d : AuthorizationCode). str_eq code d.code) w.authorization_codes)) [
                        | inl clash ↦ inl (ground (arith, passed))
                        | inr free ↦ inr (
                          record {
                            id = w.next_id;
                            code = code;
                            client_id = c.id;
                            user_id = user_id;
                            scope = r.scope;
                            redirect_uri = r.redirect_uri;
                            used = false;
                            expires_at = now + ten_minutes;
                          },
                          free,
                          ground (arith, passed),
                        )
                      ]
              ]
        ]
