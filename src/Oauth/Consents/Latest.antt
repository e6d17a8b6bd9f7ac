-- ===== src/Oauth/Consents/Latest.antt =====
-- What consents are live after `grantConsent` and `revokeAccess`.
use mathlib.Core.List.Memᴰ
use auth_backend.Base.{
  ℕ, String, ◌≡◌, true, false, List, [], ◌∷◌, ◌++◌, Memᴰ, Option, none, some, Option-cases, inl,
  inr, arith, truthy, any, any-eq-false, ap, ◌∙◌,
}
use auth_backend.Model.{World, UserConsent, OauthClient, OauthToken}
use auth_backend.Action.{ok}
use auth_backend.Services.{Services}
use auth_backend.Store.{replace}
use auth_backend.Store.Rows.{replace-mem}
use auth_backend.Oauth.Reply.{value}
use auth_backend.Oauth.Clients.{client_id_is}
use auth_backend.Oauth.Consents.{
  is_live_consent, is_live_token, grant_consent, revoke_access, new_consent,
}

module _ (sv : Services) (now : ℕ) where
  revoked_consents :
      (user_id client_id : ℕ) (rows : List UserConsent) (s : UserConsent)
      → Memᴰ s (
          replace
            (is_live_consent user_id client_id)
            (λ c. record c { revoked_at = some now })
            rows)
      → is_live_consent user_id client_id s ≡ false
  revoked_consents user_id client_id rows s m =
      let (r, k, e) =
        replace-mem (is_live_consent user_id client_id) (λ c. record c { revoked_at = some now })
          rows s m in
      rw e (ground arith)

  revoked_tokens :
      (user_id client_id : ℕ) (rows : List OauthToken) (s : OauthToken)
      → Memᴰ s
          (replace (is_live_token user_id client_id) (λ t. record t { revoked_at = some now }) rows)
      → is_live_token user_id client_id s ≡ false
  revoked_tokens user_id client_id rows s m =
      let (r, k, e) =
        replace-mem (is_live_token user_id client_id) (λ t. record t { revoked_at = some now }) rows
          s m in
      rw e (ground arith)

  module _ (user_id : ℕ) (client_id : Option String) (w : World) where
    grant_refused_missing :
        (scopes : List String) (consent : UserConsent)
        → truthy client_id ≡ none
        → (grant_consent sv now user_id client_id (some scopes) w).0 ≡ ok (value consent)
        → ⊥
    unfolding grant_consent
    grant_refused_missing scopes consent missing e = ground arith

    grant_refused_unknown :
        (scopes : List String) (consent : UserConsent) (cid : String)
        → truthy client_id ≡ some cid
        → sv.find_first (client_id_is cid) w.oauth_clients ≡ none
        → (grant_consent sv now user_id client_id (some scopes) w).0 ≡ ok (value consent)
        → ⊥
    unfolding grant_consent
    grant_refused_unknown scopes consent cid given missing e = ground arith

    -- After a grant the only live consent of the user for the client is the one that is returned,
    -- and it has the granted scopes.
    grant_consent_latest :
        (scopes : List String) (consent s : UserConsent)
        → (grant_consent sv now user_id client_id (some scopes) w).0 ≡ ok (value consent)
        → Memᴰ s (grant_consent sv now user_id client_id (some scopes) w).1.user_consents
        → is_live_consent user_id consent.client_id s ≡ true
        → (s ≡ consent) × (consent.granted_scopes ≡ scopes)
    unfolding grant_consent
    grant_consent_latest scopes consent s e m live = elim (Option-cases (truthy client_id)) [
      | inl missing ↦ absurd (grant_refused_missing scopes consent missing e)
      | inr (cid, given) ↦ elim (Option-cases (sv.find_first (client_id_is cid) w.oauth_clients)) [
        | inl missing ↦ absurd (grant_refused_unknown scopes consent cid given missing e)
        | inr (c, found) ↦
            let row = new_consent sv now user_id c.id scopes w.next_id in
            let same : row ≡ consent = ground arith in
            let after : (grant_consent sv now user_id client_id (some scopes) w).1.user_consents
                ≡ replace (is_live_consent user_id c.id) (λ d. record d { revoked_at = some now })
                    w.user_consents
                  ++ row ∷ [] =
              ground arith in
            elim (Memᴰ.append_cases _ (rw after at m)) [
              | inl old ↦
                  let dead = revoked_consents user_id c.id w.user_consents s old in
                  let id : c.id ≡ consent.client_id = ap (λ (d : UserConsent). d.client_id) same in
                  cc (rw id at dead)
              | inr new ↦ (Memᴰ.eq_of_singleton new ∙ same, ground arith)
            ]
      ]
    ]

    -- Where the client is known, an access is revoked: the request succeeds, and no consent and no
    -- token of the user for the client that are stored then are live.
    pub revoke_access_clears :
        (c : OauthClient) (cid : String)
        → truthy client_id ≡ some cid
        → sv.find_first (client_id_is cid) w.oauth_clients ≡ some c
        → let out = revoke_access sv now user_id client_id w in
          (out.0 ≡ ok (value tt))
          × (any (is_live_consent user_id c.id) out.1.user_consents ≡ false)
          × (any (is_live_token user_id c.id) out.1.oauth_tokens ≡ false)
    unfolding revoke_access
    revoke_access_clears c cid given found =
        let out = revoke_access sv now user_id client_id w in
        let consents : out.1.user_consents
            ≡ replace (is_live_consent user_id c.id) (λ d. record d { revoked_at = some now })
                w.user_consents =
          ground arith in
        let tokens : out.1.oauth_tokens
            ≡ replace (is_live_token user_id c.id) (λ d. record d { revoked_at = some now })
                w.oauth_tokens =
          ground arith in
        (
          ground arith,
          any-eq-false (is_live_consent user_id c.id) out.1.user_consents
              (λ s m. revoked_consents user_id c.id w.user_consents s (rw consents at m)),
          any-eq-false (is_live_token user_id c.id) out.1.oauth_tokens
              (λ t m. revoked_tokens user_id c.id w.oauth_tokens t (rw tokens at m)),
        )
