-- ===== src/Oauth/Reply.antt =====
-- What an operation of src/auth/app.oauth.service.ts or src/messaging/messaging.service.ts returns: a
-- value of its own, or the response object of `response.status(code).json({ message })`.
use auth_backend.Base.{ℕ, String}
use auth_backend.Action.{Action, pure, lift, ◌>>=◌}
use auth_backend.Services.{Services}

pub data Reply (S A : Type 0) : Type 0 where
  value : A → Reply S A
  response : S → Reply S A

module _ {A : Type 0} (sv : Services) where
  abbrev pub respond_with : ℕ → String → Action (Reply sv.ServerResponse A)
  respond_with code message = do r ← lift (sv.respond code message); pure (response r)
