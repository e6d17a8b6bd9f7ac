-- ===== src/Auth/Cookie.antt =====
-- `saveCookie` of src/auth/auth.service.ts.
use auth_backend.Base.{
  ℕ, String, Bool, true, false, Option, none, some, [], ◌∷◌, ◌++◌, ◌==◌, if◌then◌else◌,
}
use auth_backend.Model.{Cookie}
use auth_backend.Action.{Action, modify}
use auth_backend.Services.{Services}

-- The options that a caller may leave out.
pub record CookieOptions : Type 0 where
  pub http_only : Option Bool
  pub secure : Option Bool
  pub same_site : Option String
  pub expires : Option ℕ
  pub max_age : Option ℕ
  pub domain : Option String
  pub path : Option String
  pub global : Option Bool

-- A default of a destructuring pattern.
abbrev pub default {ℓ} : {A : Type ℓ} → Option A → A → A
default none d = d
default (some a) d = a

-- A number that is given and not 0.
abbrev nonzero : Option ℕ → Option ℕ
nonzero none = none
nonzero (some n) = if n == 0 then none else some n

module _ (sv : Services) where
  -- The domain of the first cookie: none under `global`, or the given one or the configured one.
  abbrev own_domain : CookieOptions → Option String
  own_domain o =
      if default o.global false
      then none
      else elim o.domain [ none ↦ sv.cookie_domain | some d ↦ some d ]

  pub cookie_for : String → String → CookieOptions → Option String → Cookie
  cookie_for name value o domain = record {
    name = name;
    value = value;
    http_only = default o.http_only true;
    secure = default o.secure true;
    same_site = default o.same_site "none";
    path = default o.path "/";
    expires = o.expires;
    max_age = elim o.expires [ none ↦ nonzero o.max_age | some _ ↦ none ];
    domain = domain;
  }

  unfoldable pub save_cookie : String → String → CookieOptions → Action (Unit {0})
  save_cookie name value o = modify (λ w. record w {
    cookies =
        w.cookies
        ++ cookie_for name value o (own_domain o)
          ∷ cookie_for name value o (some ".erzen.tk")
          ∷ cookie_for name value o (some ".erzen.xyz")
          ∷ cookie_for name value o (some "localhost")
          ∷ [];
  })

-- The options of every call of the service: only `expires`.
abbrev pub expiring : ℕ → CookieOptions
expiring at = record {
  http_only = none;
  secure = none;
  same_site = none;
  expires = some at;
  max_age = none;
  domain = none;
  path = none;
  global = none;
}

-- 90 days, 14 days, and the hour of a reset token, in milliseconds.
abbrev pub ninety_days : ℕ
ninety_days = 7776000000

abbrev pub fourteen_days : ℕ
fourteen_days = 1209600000

abbrev pub one_hour : ℕ
one_hour = 3600000
