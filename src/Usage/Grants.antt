-- ===== src/Usage/Grants.antt =====
-- How many requests are granted until the counter starts again
-- (src/intelligence/usage/usage.service.ts).
use mathlib.Core.Path.{subst}
use Prim.Native.Nat.{min}
use auth_backend.Base.{
  ℕ, ◌⊎◌, ◌+◌, ◌-◌, ◌<◌, ◌≡◌, refl, ap, sym, ◌∙◌, Bool, true, false, some, List, [], ◌∷◌, Memᴰ,
  length, inl, inr, Bool-cases, ==_iff, ==_refl, arith, if◌then◌else◌, leb, any-mem,
}
use auth_backend.Model.{World}
use auth_backend.Model.Ai.{SearchUsage}
use auth_backend.Action.{Result, ok, err}
use auth_backend.Services.{Services}
use auth_backend.Store.{replace}
use auth_backend.Store.Rows.{find_first-eq-some, mem-replace, replace-mem}
use auth_backend.Usage.{usage_of, usage_is, get_user_usage, check_and_increment_usage}

abbrev granted : Result Bool → ℕ
granted (ok true) = 1
granted (ok false) = 0
granted (err e) = 0

-- The grants to a user who asks at the times of a list, one after the other.
unfoldable pub grants : Services → (ℕ → ℕ) → ℕ → List ℕ → World → ℕ
grants sv first_of_next_month user_id [] w = 0
grants sv first_of_next_month user_id (now ∷ times) w =
    let (r, v) = check_and_increment_usage sv first_of_next_month now user_id w in
    granted r + grants sv first_of_next_month user_id times v

-- The only row of the user, and the only row with its id.
pub record IsOnlyUsage (user_id : ℕ) (u : SearchUsage) (w : World) : Type 0 where
  pub known : Memᴰ u w.ai.search_usages
  pub mine : u.user_id ≡ user_id
  pub only : (r : SearchUsage) → Memᴰ r w.ai.search_usages → usage_of user_id r ≡ true → r ≡ u

module _ (sv : Services) (first_of_next_month : ℕ → ℕ) (user_id now : ℕ) (u : SearchUsage)
    (w : World) (h : IsOnlyUsage user_id u w) (early : now < u.reset_date) where
  found : sv.find_first (usage_of user_id) w.ai.search_usages ≡ some u
  found =
      let (r, e) =
        find_first-eq-some sv (usage_of user_id) w.ai.search_usages u h.known
          ((==_iff u.user_id user_id).1 h.mine) in
      let (m, t) = sv.find_first_some (usage_of user_id) w.ai.search_usages e in
      e ∙ ap some (h.only r m t)

  get_user_usage_found : get_user_usage sv first_of_next_month now user_id w ≡ (ok u, w)
  unfolding get_user_usage
  get_user_usage_found =
      rw (found, (let late : leb u.reset_date now ≡ false = ground (arith, early) in late)) refl

  spent : SearchUsage
  spent = record u { used_requests = u.used_requests + 1 }

  left : World
  left =
      let t = w.ai in
      record w {
        ai = record t {
          search_usages =
              replace (usage_is u.id) (λ r. record r { used_requests = u.used_requests + 1 })
                w.ai.search_usages;
        };
      }

  check_refuses :
      leb u.total_requests u.used_requests ≡ true
      → check_and_increment_usage sv first_of_next_month now user_id w ≡ (ok false, w)
  unfolding check_and_increment_usage
  check_refuses used_up = rw (get_user_usage_found, used_up) refl

  check_grants :
      leb u.total_requests u.used_requests ≡ false
      → check_and_increment_usage sv first_of_next_month now user_id w ≡ (ok true, left)
  unfolding check_and_increment_usage left
  check_grants free =
      rw
        (
          get_user_usage_found,
          free,
          any-mem (usage_is u.id) u w.ai.search_usages h.known (==_refl u.id),
          if◌then◌else◌,
        )
        refl

  left-IsOnlyUsage : IsOnlyUsage user_id spent left
  unfolding spent left
  left-IsOnlyUsage = record {
    known =
        subst (λ r. Memᴰ r left.ai.search_usages) same
          (mem-replace {R = SearchUsage} (usage_is u.id)
            (λ r. record r { used_requests = u.used_requests + 1 }) w.ai.search_usages u h.known);
    mine = h.mine;
    only = λ r m t.
        let (k, n, e) =
          replace-mem (usage_is u.id) (λ r. record r { used_requests = u.used_requests + 1 })
            w.ai.search_usages r m in
        e ∙ ap change (h.only k n (came r k e t (Bool-cases (usage_is u.id k)))) ∙ same;
  }
    where
      change : SearchUsage → SearchUsage
      change k = if usage_is u.id k then record k { used_requests = u.used_requests + 1 } else k

      same : change u ≡ spent
      same = rw (==_refl u.id, if◌then◌else◌) refl

      came :
          (r k : SearchUsage)
          → r ≡ change k
          → usage_of user_id r ≡ true
          → (usage_is u.id k ≡ true) ⊎ (usage_is u.id k ≡ false)
          → usage_of user_id k ≡ true
      came r k e t (inl here) =
          let changed : r ≡ record k { used_requests = u.used_requests + 1 } =
            e ∙ rw (here, if◌then◌else◌) refl in
          ap (λ (x : SearchUsage). usage_of user_id x) (sym changed) ∙ t
      came r k e t (inr away) =
          let kept : r ≡ k = e ∙ rw (away, if◌then◌else◌) refl in
          ap (λ (x : SearchUsage). usage_of user_id x) (sym kept) ∙ t

-- Every time is before the date.
abbrev pub AllBefore : ℕ → List ℕ → Type 0
AllBefore date [] = Unit
AllBefore date (t ∷ ts) = (t < date) × AllBefore date ts

-- Until the date on which the counter starts again, a user who asks any number of times is granted
-- exactly as many requests as there were left, or as were asked for if these are fewer.
pub grants-min :
    (sv : Services) (first_of_next_month : ℕ → ℕ) (user_id : ℕ) (times : List ℕ) (u : SearchUsage)
    (w : World) (only : IsOnlyUsage user_id u w) (early : AllBefore u.reset_date times)
    → grants sv first_of_next_month user_id times w
      ≡ min (length times) (u.total_requests - u.used_requests)
unfolding grants spent
grants-min sv first_of_next_month user_id [] u w h early = omega arith
grants-min sv first_of_next_month user_id (now ∷ times) u w h (soon, early) =
    elim (Bool-cases (leb u.total_requests u.used_requests)) [
      | inl used_up ↦
          rw (check_refuses sv first_of_next_month user_id now u w h soon used_up)
            (ground (arith, used_up, grants-min sv first_of_next_month user_id times u w h early))
      | inr free ↦ rw (check_grants sv first_of_next_month user_id now u w h soon free) (
          ground (
            arith,
            free,
            grants-min sv first_of_next_month user_id times
                (spent sv first_of_next_month user_id now u w h soon)
                (left sv first_of_next_month user_id now u w h soon)
                (left-IsOnlyUsage sv first_of_next_month user_id now u w h soon) early,
          ))
    ]
