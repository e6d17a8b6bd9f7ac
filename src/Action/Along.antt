-- ===== src/Action/Along.antt =====
-- Handlers that change the world only along a given relation, part by part.
use auth_backend.Base.{Option, none, some}
use auth_backend.Model.{World}
use auth_backend.Action.{Exception, Result, ok, err, Action, ◌>>=◌, or_raise, continue}

-- The world after a handler is related to the world before it, whether it returned or threw.
pub record IsAlong {A : Type 0} (R : World → World → Type 0) (m : Action A) : Type 0 where
  pub along : (w : World) → R w (m w).1

module _ (R : World → World → Type 0) (same : (w : World) → R w w)
    (both : (w v u : World) → R w v → R v u → R w u) where
  pub bind-IsAlong :
      {A B : Type 0} {m : Action A} {f : A → Action B}
      → IsAlong R m
      → ((a : A) → IsAlong R (f a))
      → IsAlong R (m >>= f)
  bind-IsAlong {m = m} {f = f} first rest = record {
    along = λ w. after (m w).0 (m w).1 w (first.along w);
  }
    where
      after : (r : Result _) (v w : World) → R w v → R w (continue f (r, v)).1
      after (ok a) v w h = both w v _ h ((rest a).along v)
      after (err e) v w h = h

  pub or_raise-IsAlong : {A : Type 0} (o : Option A) (e : Exception) → IsAlong R (or_raise o e)
  or_raise-IsAlong none e = record { along = same }
  or_raise-IsAlong (some a) e = record { along = same }
