-- ===== src/Oauth/Tokens/Grants.antt =====
-- What the grants of the OAuth provider give out, and to whom.
use auth_backend.Base.{
  ℕ, ◌+◌, ◌<◌, ◌==◌, String, ◌≡◌, ◌≢◌, true, false, List, [], ◌∷◌, ◌++◌, Memᴰ, some, Option-cases,
  inl, inr, arith, ==_iff, eq_iff, ==_refl, truthy, str_eq, any-eq-false, List-cases,
}
use auth_backend.Base.Text.{concat, join}
use auth_backend.Model.{World, OauthClient, AuthorizationCode, AuthorizationRequest, TokenRequest}
use auth_backend.Action.{ok}
use auth_backend.Services.{Services}
use auth_backend.Store.{replace}
use auth_backend.Store.Rows.{any_found, find_first-eq-none}
use auth_backend.Oauth.Reply.{value}
use auth_backend.Oauth.Scopes.{invalid_scopes, validate_scopes}
use auth_backend.Oauth.Clients.{client_redirects_to, validate_client}
use auth_backend.Oauth.Tokens.{
  is_redeemable, is_refreshable, handle_authorization_request, handle_authorization_code_grant,
  handle_refresh_token_grant, handle_token_request, TokenReply,
}

-- Rows that carry one code are one row (the unique column).
abbrev pub HasUniqueCodes : List AuthorizationCode → Type 0
HasUniqueCodes rows =
    (r s : AuthorizationCode) → Memᴰ r rows → Memᴰ s rows → r.code ≡ s.code → r.id ≡ s.id

module _ (sv : Services) (now : ℕ) where
  -- No token request ever stores a token: the table of OAuth tokens stays as it is.
  handle_token_request-oauth_tokens :
      (r : TokenRequest) (drawn : String) (w : World)
      → (handle_token_request sv now r drawn w).1.oauth_tokens ≡ w.oauth_tokens
  unfolding handle_token_request
  handle_token_request-oauth_tokens r drawn w = ground arith

  module _ (r : TokenRequest) (c : OauthClient) (drawn : String) (w : World) where
    -- The row that a successful code grant has redeemed.
    pub record Redeemed (reply : TokenReply) : Type 0 where
      pub row : AuthorizationCode
      pub listed : Memᴰ row w.authorization_codes
      pub code_is : truthy r.code ≡ some row.code
      pub of_client : row.client_id ≡ c.id
      pub unused : row.used ≡ false
      pub in_time : now < row.expires_at
      pub codes_after :
          (handle_authorization_code_grant sv now r c drawn w).1.authorization_codes
          ≡ replace (λ d. d.id == row.id) (λ d. record d { used = true }) w.authorization_codes

    -- A code grant that hands out tokens has found an unused, unexpired row of the code for this
    -- client, and marks it, and no other row, as used.
    pub handle_authorization_code_grant-Redeemed :
        (reply : TokenReply)
        → (handle_authorization_code_grant sv now r c drawn w).0 ≡ ok (value reply)
        → Redeemed reply
    unfolding handle_authorization_code_grant
    handle_authorization_code_grant-Redeemed reply done = elim (Option-cases (truthy r.code)) [
      | inl missing ↦ absurd (ground arith)
      | inr (code, has_code) ↦
          elim (Option-cases (sv.find_first (is_redeemable now code c.id) w.authorization_codes)) [
            | inl unknown ↦ absurd (ground arith)
            | inr (row, found) ↦
                let (listed, redeemable) =
                  sv.find_first_some (is_redeemable now code c.id) w.authorization_codes found in
                let present =
                  any_found sv (is_redeemable now code c.id)
                    (λ (d : AuthorizationCode). d.id == row.id) w.authorization_codes row found
                    (==_refl row.id) in
                record {
                  row = row;
                  listed = listed;
                  code_is = ground (arith, eq_iff row.code code);
                  of_client = ground (arith, ==_iff row.client_id c.id);
                  unused = ground arith;
                  in_time = ground arith;
                  codes_after = ground arith;
                }
          ]
    ]

  -- A refresh grant hands out no token while no OAuth token is stored.
  handle_refresh_token_grant_refused :
      (r : TokenRequest) (c : OauthClient) (reply : TokenReply) (w : World)
      → w.oauth_tokens ≡ []
      → (handle_refresh_token_grant sv now r c w).0 ≢ ok (value reply)
  unfolding handle_refresh_token_grant
  handle_refresh_token_grant_refused r c reply w nothing done =
      elim (Option-cases (truthy r.refresh_token)) [
        | inl missing ↦ absurd (ground arith)
        | inr (token, given) ↦
            let unknown =
              find_first-eq-none sv (is_refreshable now token c.id) w.oauth_tokens
                (λ t m. elim (rw nothing at m) [ ]) in
            absurd (ground (arith, unknown))
      ]

  -- Where the response object can be written to, the check of scopes lets every scope through.
  validate_scopes-ok :
      (requested allowed : List String) (w : World)
      → ((status : ℕ) (message : String)
          → (answer : sv.ServerResponse) × (sv.respond status message ≡ ok answer))
      → validate_scopes sv requested allowed w ≡ (ok tt, w)
  unfolding validate_scopes
  validate_scopes-ok requested allowed w answers =
      elim (List-cases (invalid_scopes requested allowed)) [
        | inl nothing ↦ ground (arith, nothing)
        | inr (x, xs, some_invalid) ↦
            let (answer, e) = answers 400 (concat ("Invalid scopes: " ∷ join ", " (x ∷ xs) ∷ [])) in
            ground (arith, e, some_invalid)
      ]

  -- The scopes that an authorization request asks for are not checked: where the response object
  -- can be written to, a request for a known client and redirect address stores a code with
  -- exactly the scopes asked for, whether the client is allowed them or not.
  -- Condition: no row has the code already.
  handle_authorization_request-scope :
      (r : AuthorizationRequest) (c : OauthClient) (user_id : ℕ) (code : String) (w : World)
      → ((status : ℕ) (message : String)
          → (answer : sv.ServerResponse) × (sv.respond status message ≡ ok answer))
      → sv.find_first (client_redirects_to r.client_id r.redirect_uri) w.oauth_clients ≡ some c
      → ((d : AuthorizationCode) → Memᴰ d w.authorization_codes → str_eq code d.code ≡ false)
      → (handle_authorization_request sv now r user_id code w).1.authorization_codes
        ≡ w.authorization_codes
          ++ record {
            id = w.next_id;
            code = code;
            client_id = c.id;
            user_id = user_id;
            scope = r.scope;
            redirect_uri = r.redirect_uri;
            used = false;
            expires_at = now + 600000;
          }
            ∷ []
  unfolding handle_authorization_request validate_client
  handle_authorization_request-scope r c user_id code w answers found fresh =
      let no_clash =
        any-eq-false (λ (d : AuthorizationCode). str_eq code d.code) w.authorization_codes fresh in
      let (listed, redirects) =
        sv.find_first_some (client_redirects_to r.client_id r.redirect_uri) w.oauth_clients found in
      ground (arith, validate_scopes-ok r.scope c.allowed_scopes w answers)
