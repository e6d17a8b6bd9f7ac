-- ===== src/Usage.antt =====
-- The allowance of requests of a user: `UsageService` (src/intelligence/usage/usage.service.ts), and
-- `updateRole` of `UserService` (src/user/user.service.ts). Amounts are not negative.
-- `first_of_next_month` is the calendar of the server's time zone: the `setMonth`, `setDate` and
-- `setHours` of the source on the present time.
pub mod Grants
pub mod Renewal
use auth_backend.Base.{
  ℕ, ◌+◌, ◌-◌, Bool, true, false, Option, none, some, List, [], ◌∷◌, is_none, leb, ltb, ◌==◌,
  if◌then◌else◌,
}
use auth_backend.Model.{World, User, Role, user, premium, moderator, admin, super_admin}
use auth_backend.Model.Ai.{SearchUsage, AiTables}
use auth_backend.Action.{
  Exception, not_found, type_error, Action, Result, ok, err, pure, or_raise, raise_if, ◌>>=◌, ◌>>◌,
}
use auth_backend.Services.{Services}
use auth_backend.Store.{Table, create, update, find_first, users_table}
use auth_backend.Projects.Store.{with_ai}

abbrev pub search_usages_table : Table SearchUsage
search_usages_table = record {
  rows = λ w. w.ai.search_usages;
  put = λ rs w. let t = w.ai in with_ai w (record t { search_usages = rs });
}

-- `USAGE_LIMITS`, which has every role.
abbrev pub limit_of : Role → ℕ
limit_of user = 100
limit_of premium = 1000
limit_of moderator = 5000
limit_of admin = 5000
limit_of super_admin = 5000

-- The answer of `getRemainingRequests`.
pub record Remaining : Type 0 where
  pub used : ℕ
  pub total : ℕ
  pub remaining : ℕ
  pub reset_date : ℕ

abbrev pub usage_of : ℕ → SearchUsage → Bool
usage_of user_id u = u.user_id == user_id

abbrev pub usage_is : ℕ → SearchUsage → Bool
usage_is i u = u.id == i

abbrev pub with_total : ℕ → SearchUsage → SearchUsage
with_total n u = record u { total_requests = n }

abbrev pub user_missing : Exception
user_missing = not_found "User not found"

module _ (sv : Services) (first_of_next_month : ℕ → ℕ) (now : ℕ) where
  abbrev pub find_by_id : ℕ → Action (Option User)
  find_by_id user_id = find_first sv users_table (λ u. u.id == user_id)

  unfoldable pub update_role : ℕ → Role → Action (Unit {0})
  update_role user_id role = do
    found ← find_by_id user_id
    raise_if (is_none found) user_missing
    update users_table (λ u. u.id == user_id) (λ u. record u { role = role })

  abbrev pub change_usage : (SearchUsage → SearchUsage) → SearchUsage → Action SearchUsage
  change_usage change u = do update search_usages_table (usage_is u.id) change; pure (change u)

  -- The row that was found, or a new one with the limit of the role.
  abbrev pub get_or_create : ℕ → Option SearchUsage → Action SearchUsage
  get_or_create user_id (some u) = pure u
  get_or_create user_id none = do
    found ← find_by_id user_id
    owner ← or_raise found user_missing
    create search_usages_table (λ i. record {
      id = i;
      user_id = user_id;
      used_requests = 0;
      total_requests = limit_of owner.role;
      reset_date = first_of_next_month now;
    })

  abbrev pub renewed : Role → SearchUsage → SearchUsage
  renewed role u = record u {
    used_requests = 0;
    total_requests = limit_of role;
    reset_date = first_of_next_month now;
  }

  -- A new month: the counter starts again. The role of a missing user cannot be read.
  abbrev pub renew : ℕ → SearchUsage → Action SearchUsage
  renew user_id u = do
    found ← find_by_id user_id
    owner ← or_raise found type_error
    change_usage (renewed owner.role) u

  abbrev pub renew_if : Bool → ℕ → SearchUsage → Action SearchUsage
  renew_if true user_id u = renew user_id u
  renew_if false user_id u = pure u

  unfoldable pub get_user_usage : ℕ → Action SearchUsage
  get_user_usage user_id = do
    found ← find_first sv search_usages_table (usage_of user_id)
    u ← get_or_create user_id found
    renew_if (leb u.reset_date now) user_id u

  abbrev pub increment_unless : Bool → SearchUsage → Action Bool
  increment_unless true u = pure false
  increment_unless false u = do
    change_usage (λ r. record r { used_requests = u.used_requests + 1 }) u
    pure true

  unfoldable pub check_and_increment_usage : ℕ → Action Bool
  check_and_increment_usage user_id = do
    u ← get_user_usage user_id
    increment_unless (leb u.total_requests u.used_requests) u

  unfoldable pub add_requests : ℕ → ℕ → Action SearchUsage
  add_requests user_id amount = do
    u ← get_user_usage user_id
    change_usage (with_total (u.total_requests + amount)) u

  -- `Math.max(0, a - b)` is the subtraction of ℕ.
  unfoldable pub remove_requests : ℕ → ℕ → Action SearchUsage
  remove_requests user_id amount = do
    u ← get_user_usage user_id
    change_usage (with_total (u.total_requests - amount)) u

  unfoldable pub get_remaining_requests : ℕ → Action Remaining
  get_remaining_requests user_id = do
    u ← get_user_usage user_id
    pure (record {
      used = u.used_requests;
      total = u.total_requests;
      remaining = u.total_requests - u.used_requests;
      reset_date = u.reset_date;
    })

  unfoldable pub update_user_limits : ℕ → Action SearchUsage
  update_user_limits user_id = do
    found ← find_by_id user_id
    owner ← or_raise found user_missing
    u ← get_user_usage user_id
    change_usage (with_total (limit_of owner.role)) u

  -- `upgradeUser` of src/intelligence/usage/usage.controller.ts: the new limit.
  unfoldable pub upgrade_user : ℕ → Action ℕ
  upgrade_user user_id = do
    found ← find_by_id user_id
    raise_if (is_none found) user_missing
    update_role user_id premium
    u ← update_user_limits user_id
    pure u.total_requests
