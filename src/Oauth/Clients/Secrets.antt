-- ===== src/Oauth/Clients/Secrets.antt =====
-- Which credentials of a client are accepted.
use auth_backend.Base.{
  String, ◌≡◌, ◌≢◌, true, Memᴰ, some, Option-cases, inl, inr, arith, eq_iff, includes,
}
use auth_backend.Model.{World, OauthClient}
use auth_backend.Action.{ok, succeeds}
use auth_backend.Services.{Services}
use auth_backend.Store.Rows.{find_first-eq-some}
use auth_backend.Oauth.Clients.{
  client_id_is, client_redirects_to, validate_client, validate_client_credentials,
}

module _ (sv : Services) (w : World) where
  -- The secret is not checked: any secret that is not empty is accepted for a client that exists.
  validate_client_credentials_any :
      (client_id secret : String) (c : OauthClient)
      → client_id ≢ ""
      → secret ≢ ""
      → Memᴰ c w.oauth_clients
      → c.client_id ≡ client_id
      → succeeds (validate_client_credentials sv (some client_id) (some secret) w).0 ≡ true
  unfolding validate_client_credentials
  validate_client_credentials_any client_id secret c named given m same =
      let (d, found) =
        find_first-eq-some sv (client_id_is client_id) w.oauth_clients c m
          ((eq_iff c.client_id client_id).1 same) in
      ground (arith, eq_iff client_id "", eq_iff secret "")

  -- A client is accepted only if it exists and lists the address to redirect to.
  validate_client-includes :
      (client_id uri : String) (c : OauthClient)
      → (validate_client sv client_id uri w).0 ≡ ok c
      → Memᴰ c w.oauth_clients × (c.client_id ≡ client_id) × (includes c.redirect_uris uri ≡ true)
  unfolding validate_client
  validate_client-includes client_id uri c e =
      elim (Option-cases (sv.find_first (client_redirects_to client_id uri) w.oauth_clients)) [
        | inl missing ↦ absurd (ground arith)
        | inr (d, found) ↦
            let (m, h) =
              sv.find_first_some (client_redirects_to client_id uri) w.oauth_clients found in
            let one : d ≡ c = ground arith in
            rw (← one) (m, ground (arith, eq_iff d.client_id client_id), ground arith)
      ]
