-- ===== src/Services.antt =====
-- What the code takes from packages outside the repository, as operations with the documented
-- behaviour that the code relies on: the queries of Prisma, `jsonwebtoken` behind `JwtService`,
-- `bcrypt`, `otplib`, `qrcode`, the cache manager, the shared response object of `express`, the letter cases of
-- Unicode, and the environment variable for the cookie domain.
use auth_backend.Base.{
  ℕ, String, ◌≡◌, Bool, true, false, Option, none, some, List, ◌∷◌, Memᴰ, length, filter,
  IsDescending, IsAscending,
}
use auth_backend.Model.{Role, CacheKey, Cached, CacheCall, cache_del, same_key}
use auth_backend.Action.{Result, ok}

-- The payloads that the code signs.
pub data Claims : Type 0 where
  access : ℕ → String → Role → Claims
  refresh : ℕ → Claims
  reset_password : ℕ → Claims
  oauth_access : ℕ → String → List String → Claims

pub record Services : Type 1 where
  -- `findFirst` and `findUnique`: a row that meets the condition, if there is one.
  pub find_first : {R : Type 0} → (R → Bool) → List R → Option R
  pub find_first_some :
      {R : Type 0} (p : R → Bool) (rows : List R) {r : R}
      → find_first p rows ≡ some r
      → Memᴰ r rows × (p r ≡ true)
  pub find_first_none :
      {R : Type 0} (p : R → Bool) (rows : List R)
      → find_first p rows ≡ none
      → (r : R) → Memᴰ r rows
      → p r ≡ false
  -- `findMany`: the rows that meet the condition, in an order that the code does not rely on.
  pub find_many : {R : Type 0} → (R → Bool) → List R → List R
  pub find_many_sound :
      {R : Type 0} (p : R → Bool) (rows : List R) (r : R)
      → Memᴰ r (find_many p rows)
      → Memᴰ r rows × (p r ≡ true)
  pub find_many_complete :
      {R : Type 0} (p : R → Bool) (rows : List R) (r : R)
      → Memᴰ r rows
      → p r ≡ true
      → Memᴰ r (find_many p rows)
  pub length-find_many :
      {R : Type 0} (p : R → Bool) (rows : List R)
      → length (find_many p rows) ≡ length (filter p rows)
  -- `findMany` with `orderBy` and `desc`: greater keys first; rows of one key in any order.
  pub find_ordered : {R : Type 0} → (R → Bool) → (R → ℕ) → List R → List R
  pub find_ordered_sound :
      {R : Type 0} (p : R → Bool) (key : R → ℕ) (rows : List R) (r : R)
      → Memᴰ r (find_ordered p key rows)
      → Memᴰ r rows × (p r ≡ true)
  pub find_ordered_complete :
      {R : Type 0} (p : R → Bool) (key : R → ℕ) (rows : List R) (r : R)
      → Memᴰ r rows
      → p r ≡ true
      → Memᴰ r (find_ordered p key rows)
  pub find_ordered-IsDescending :
      {R : Type 0} (p : R → Bool) (key : R → ℕ) (rows : List R)
      → IsDescending key (find_ordered p key rows)
  -- `findMany` with `orderBy` and `asc`: smaller keys first, and each row as often as it stands.
  pub find_ascending : {R : Type 0} → (R → Bool) → (R → ℕ) → List R → List R
  pub find_ascending_sound :
      {R : Type 0} (p : R → Bool) (key : R → ℕ) (rows : List R) (r : R)
      → Memᴰ r (find_ascending p key rows)
      → Memᴰ r rows × (p r ≡ true)
  pub find_ascending_complete :
      {R : Type 0} (p : R → Bool) (key : R → ℕ) (rows : List R) (r : R)
      → Memᴰ r rows
      → p r ≡ true
      → Memᴰ r (find_ascending p key rows)
  pub length-filter-find_ascending :
      {R : Type 0} (p q : R → Bool) (key : R → ℕ) (rows : List R)
      → length (filter q (find_ascending p key rows)) ≡ length (filter q (filter p rows))
  pub find_ascending-IsAscending :
      {R : Type 0} (p : R → Bool) (key : R → ℕ) (rows : List R)
      → IsAscending key (find_ascending p key rows)
  -- `sign` and `verify` of `JwtService`; the signing time is part of the token.
  pub sign : Claims → ℕ → String
  pub verify : String → ℕ → Option Claims
  -- `bcrypt.hash(password, 10)` at a random salt, and `bcrypt.compare`.
  pub hash : String → String → String
  pub compare : String → String → Bool
  pub compare-hash : (password salt : String) → compare password (hash password salt) ≡ true
  -- `authenticator.verify` and `authenticator.keyuri` of `otplib`, and `qrcode.toBuffer`.
  pub verify_totp : String → Option String → ℕ → Result Bool
  pub keyuri : String → String → String → String
  pub qr_image : String → String
  -- `response.status(code).json({ message })` on the object that `express` exports.
  pub ServerResponse : Type 0
  pub respond : ℕ → String → Result ServerResponse
  -- AES-256-CBC of the `crypto` module behind `EncryptionService`, with the JSON of the pair around
  -- it: the text that is stored for a content, and the content of a stored text.
  pub encrypt : String → String
  pub decrypt : String → Result String
  pub decrypt-encrypt : (content : String) → decrypt (encrypt content) ≡ ok content
  -- What `get` of the cache manager returns at a time for a key, after these calls of `set` and
  -- `del`, the latest first; a `del` of another key makes no difference.
  pub cached : List CacheCall → ℕ → CacheKey → Option Cached
  pub cached-cache_del :
      (calls : List CacheCall) (now : ℕ) (gone key : CacheKey)
      → same_key gone key ≡ false
      → cached (cache_del gone ∷ calls) now key ≡ cached calls now key
  -- The instant that Prisma stores in a `DateTime` column for a text, as text; none where it
  -- refuses the text, as it does a date without a time.
  pub date_time : String → Option String
  -- `toLowerCase`, and `process.env.COOKIE_DOMAIN`.
  pub to_lower_case : String → String
  pub cookie_domain : Option String
