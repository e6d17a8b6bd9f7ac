-- ===== src/Oauth/Run/Codes.antt =====
-- Authorization codes along a run of requests.
use mathlib.Core.List.Memᴰ
use auth_backend.Base.{
  mem-any, ◌∙◌, ℕ, String, ◌≡◌, ◌≢◌, ◌==◌, ◌∷◌, [], refl, true, Memᴰ, some, any, any-mem, inl, inr,
  arith, ==_iff, eq_iff, truthy, str_eq,
}
use auth_backend.Model.{World, AuthorizationCode, OauthClient, TokenRequest}
use auth_backend.Action.{ok}
use auth_backend.Services.{Services}
use auth_backend.Store.{same_code}
use auth_backend.Store.Rows.{any-replace, replace-mem}
use auth_backend.Oauth.Reply.{value}
use auth_backend.Oauth.Clients.{register_application, edit_user_application, rotate_client_secret}
use auth_backend.Oauth.Consents.{grant_consent, revoke_access}
use auth_backend.Oauth.Tokens.{
  TokenReply, handle_authorization_request, handle_authorization_code_grant, handle_token_request,
}
use auth_backend.Oauth.Tokens.Grants.{HasUniqueCodes, handle_authorization_code_grant-Redeemed}
use auth_backend.Oauth.Run.{
  Step, asks, redeems, consents, withdraws, registers, edits, rotates, Run, stop, next,
}
use auth_backend.Oauth.Run.Writes.{
  grant_consent_keeps, revoke_access_keeps, register_application_keeps, edit_user_application_keeps,
  rotate_client_secret_keeps, Marked, Added, handle_token_request-Marked,
  handle_authorization_request-Added,
}

-- Each row of the code is used, and there is one.
abbrev pub IsSpent : String → World → Type 0
IsSpent code w =
    ((r : AuthorizationCode) → Memᴰ r w.authorization_codes → r.code ≡ code → r.used ≡ true)
    × (any (λ (r : AuthorizationCode). str_eq r.code code) w.authorization_codes ≡ true)

module _ (sv : Services) where
  -- Operations that leave the table of codes alone.
  same_codes :
      (code : String) (w v : World)
      → v.authorization_codes ≡ w.authorization_codes
      → IsSpent code w
      → IsSpent code v
  same_codes code w v same spent = rw same spent

  Marked-IsSpent : (code : String) (w v : World) → Marked sv w v → IsSpent code w → IsSpent code v
  Marked-IsSpent code w v (inl same) spent = same_codes code w v same spent
  Marked-IsSpent code w v (inr (i, marked)) (all_used, there) = (
    λ r m same.
        let (k, listed, change) =
          replace-mem (λ (d : AuthorizationCode). d.id == i) (λ d. record d { used = true })
            w.authorization_codes r (rw marked at m) in
        ground (arith, all_used k listed),
    rw marked (
        any-replace (λ (d : AuthorizationCode). d.id == i) (λ d. str_eq d.code code)
          (λ d. record d { used = true }) w.authorization_codes (λ r. refl)
        ∙ there),
  )

  Added-IsSpent : (code : String) (w v : World) → Added sv w v → IsSpent code w → IsSpent code v
  Added-IsSpent code w v (inl same) spent = same_codes code w v same spent
  Added-IsSpent code w v (inr (row, free, added)) (all_used, there) =
      let (first, listed, coded) =
        mem-any (λ (d : AuthorizationCode). str_eq d.code code) w.authorization_codes there in
      (
        λ r m same. elim (Memᴰ.append_cases w.authorization_codes (rw added at m)) [
          | inl old ↦ all_used r old same
          | inr new ↦
              let is_row = Memᴰ.eq_of_singleton new in
              let clash =
                any-mem (same_code row) first w.authorization_codes listed
                  (ground (arith, is_row, eq_iff first.code code, eq_iff row.code first.code)) in
              cc (free)
        ],
        any-mem (λ (d : AuthorizationCode). str_eq d.code code) first v.authorization_codes
            (rw added (Memᴰ.append_left (row ∷ []) listed)) coded,
      )

  Step-IsSpent : (code : String) {w v : World} → Step sv w v → IsSpent code w → IsSpent code v
  Step-IsSpent code (asks now r user_id drawn w) spent =
      Added-IsSpent code w (handle_authorization_request sv now r user_id drawn w).1
        (handle_authorization_request-Added sv now r user_id drawn w) spent
  Step-IsSpent code (redeems now r drawn w) spent =
      Marked-IsSpent code w (handle_token_request sv now r drawn w).1
        (handle_token_request-Marked sv now r drawn w) spent
  Step-IsSpent code (consents now user_id client_id scopes w) spent =
      same_codes code w (grant_consent sv now user_id client_id scopes w).1
        (grant_consent_keeps sv now user_id client_id scopes w) spent
  Step-IsSpent code (withdraws now user_id client_id w) spent =
      same_codes code w (revoke_access sv now user_id client_id w).1
        (revoke_access_keeps sv now user_id client_id w) spent
  Step-IsSpent code (registers ctx a client_id secret salt w) spent =
      same_codes code w (register_application sv ctx a client_id secret salt w).1
        (register_application_keeps sv ctx a client_id secret salt w) spent
  Step-IsSpent code (edits ctx application_id a w) spent =
      same_codes code w (edit_user_application sv ctx application_id a w).1
        (edit_user_application_keeps sv ctx application_id a w) spent
  Step-IsSpent code (rotates client_id current secret salt w) spent =
      same_codes code w (rotate_client_secret sv client_id current secret salt w).1
        (rotate_client_secret_keeps sv client_id current secret salt w) spent

  -- Once each row of a code is used, that stays so along every run of requests.
  pub Run-IsSpent : (code : String) {w v : World} → Run sv w v → IsSpent code w → IsSpent code v
  Run-IsSpent code (stop w) spent = spent
  Run-IsSpent code (next s rest) spent = Run-IsSpent code rest (Step-IsSpent code s spent)

  grant-IsSpent :
      (now : ℕ) (r : TokenRequest) (c : OauthClient) (drawn code : String) (w : World)
      (reply : TokenReply)
      → HasUniqueCodes w.authorization_codes
      → (handle_authorization_code_grant sv now r c drawn w).0 ≡ ok (value reply)
      → truthy r.code ≡ some code
      → IsSpent code (handle_authorization_code_grant sv now r c drawn w).1
  grant-IsSpent now r c drawn code w reply unique granted given =
      let d = handle_authorization_code_grant-Redeemed sv now r c drawn w reply granted in
      let same_code_as : d.row.code ≡ code = ground (arith, d.code_is) in
      (
        λ s m same.
            let (k, listed, change) =
              replace-mem (λ (e : AuthorizationCode). e.id == d.row.id)
                (λ e. record e { used = true }) w.authorization_codes s (rw d.codes_after at m) in
            let one = unique k d.row listed d.listed in
            ground (arith, change, one, ==_iff k.id d.row.id),
        rw d.codes_after (
            any-replace (λ (e : AuthorizationCode). e.id == d.row.id) (λ e. str_eq e.code code)
              (λ e. record e { used = true }) w.authorization_codes (λ e. refl)
            ∙ any-mem (λ (e : AuthorizationCode). str_eq e.code code) d.row w.authorization_codes
                d.listed ((eq_iff d.row.code code).1 same_code_as)),
      )

-- A code is redeemed once, whatever happens in between: after a grant that handed out tokens and
-- any run of requests to the provider, at any times, no grant with the same code hands out tokens.
-- Condition: at first, rows that carry one code are one row.
pub code_redeemed_once :
    (sv : Services) (now later : ℕ) (r s : TokenRequest) (c d : OauthClient) (drawn drawn' : String)
    (w v : World) (reply reply' : TokenReply)
    → HasUniqueCodes w.authorization_codes
    → (handle_authorization_code_grant sv now r c drawn w).0 ≡ ok (value reply)
    → Run sv (handle_authorization_code_grant sv now r c drawn w).1 v
    → s.code ≡ r.code
    → (handle_authorization_code_grant sv later s d drawn' v).0 ≢ ok (value reply')
code_redeemed_once sv now later r s c d drawn drawn' w v reply reply' unique granted run same
      again =
    let first = handle_authorization_code_grant-Redeemed sv now r c drawn w reply granted in
    let second = handle_authorization_code_grant-Redeemed sv later s d drawn' v reply' again in
    let spent =
      Run-IsSpent sv first.row.code run
        (grant-IsSpent sv now r c drawn first.row.code w reply unique granted first.code_is) in
    let used =
      spent.0 second.row second.listed (ground (arith, first.code_is, second.code_is, same)) in
    ground (arith, used, second.unused)
