-- ===== src/Chat/Push.antt =====
-- Push subscriptions: `saveSubscription`, `findSubscriptionByEndpoint`,
-- `findUserSubscriptionByEndpoint`, `updateSubscription`, `getSubscriptions`,
-- `findUserAndSubscriptionsByUsername` and `deleteSubscription` of
-- src/messaging/messaging.service.ts.
use auth_backend.Base.{
  ℕ, String, Bool, true, false, ◌&&◌, Option, none, some, List, [], str_eq, truthy, ◌==◌,
}
use auth_backend.Model.{User, PushSubscription}
use auth_backend.Action.{Action, pure, ◌>>=◌, ◌>>◌}
use auth_backend.Services.{Services}
use auth_backend.Store.{users_table, create, update, find_first, find_many}
use auth_backend.Chat.Store.{push_subscriptions_table, delete_many}
use auth_backend.Chat.Direct.{has_username}

-- The object that a browser sends.
pub record Subscription : Type 0 where
  pub endpoint : String
  pub p256dh : String
  pub auth : String

abbrev pub is_at : ℕ → String → PushSubscription → Bool
is_at user_id endpoint s = s.user_id == user_id && str_eq s.endpoint endpoint

abbrev pub new_subscription : ℕ → Subscription → ℕ → PushSubscription
new_subscription user_id s i = record {
  id = i;
  user_id = user_id;
  endpoint = s.endpoint;
  p256dh = s.p256dh;
  auth = s.auth;
}

abbrev pub with_keys : Subscription → PushSubscription → PushSubscription
with_keys s row = record row { p256dh = s.p256dh; auth = s.auth }

module _ (sv : Services) where
  unfoldable pub save_subscription : ℕ → Subscription → Action (Unit {0})
  save_subscription user_id s = do
    create push_subscriptions_table (new_subscription user_id s)
    pure tt

  unfoldable pub find_subscription_by_endpoint : String → Action (Option PushSubscription)
  find_subscription_by_endpoint endpoint =
      find_first sv push_subscriptions_table (λ s. str_eq s.endpoint endpoint)

  unfoldable pub find_user_subscription_by_endpoint : ℕ → String → Action (Option PushSubscription)
  find_user_subscription_by_endpoint user_id endpoint =
      find_first sv push_subscriptions_table (is_at user_id endpoint)

  -- Whether there was a subscription to update.
  abbrev pub update_found : Subscription → Option PushSubscription → Action Bool
  update_found s none = pure false
  update_found s (some row) = do
    update push_subscriptions_table (λ r. r.id == row.id) (with_keys s)
    pure true

  unfoldable pub update_subscription : ℕ → Subscription → Action Bool
  update_subscription user_id s = do
    row ← find_first sv push_subscriptions_table (is_at user_id s.endpoint)
    update_found s row

  unfoldable pub get_subscriptions : ℕ → Action (List PushSubscription)
  get_subscriptions user_id = find_many sv push_subscriptions_table (λ s. s.user_id == user_id)

  abbrev subscriptions_of : Option User → Action (Option User × List PushSubscription)
  subscriptions_of none = pure (none, [])
  subscriptions_of (some u) = do
    rows ← find_many sv push_subscriptions_table (λ s. s.user_id == u.id)
    pure (some u, rows)

  unfoldable pub find_user_and_subscriptions_by_username :
      Option String → Action (Option User × List PushSubscription)
  find_user_and_subscriptions_by_username given = elim (truthy given) [
    | none ↦ pure (none, [])
    | some username ↦ do u ← find_first sv users_table (has_username username); subscriptions_of u
  ]

  unfoldable pub delete_subscription : ℕ → String → Action (Unit {0})
  delete_subscription user_id endpoint =
      delete_many push_subscriptions_table (is_at user_id endpoint)
