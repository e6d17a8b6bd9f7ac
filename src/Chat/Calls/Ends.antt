-- ===== src/Chat/Calls/Ends.antt =====
-- Who is in a call after it is joined or left, and when it ends.
use mathlib.Core.List.Memᴰ
use auth_backend.Base.{
  ℕ, ◌≡◌, inl, inr, refl, Bool, true, false, ◌&&◌, not, List, [], ◌∷◌, any, any-mem, any-eq-false,
  filter, length, Bool-cases, Option-cases, is_none, ==_refl, ◌==◌, if◌then◌else◌, some, none,
  arith, Memᴰ,
}
use auth_backend.Model.{World, HttpContext, User, CallSession, CallParticipant}
use auth_backend.Action.{ok}
use auth_backend.Services.{Services}
use auth_backend.Store.{replace}
use auth_backend.Store.Rows.{any_found, mem-replace}
use auth_backend.Chat.Calls.{
  call_is, takes_part, is_in, left, joined, leave_call, new_participant, join_call,
}

nobody :
    (p : CallParticipant → Bool) (ps : List CallParticipant)
    → (length (filter p ps) == 0) ≡ not (any p ps)
nobody p [] = refl
nobody p (x ∷ xs) = ground (arith, nobody p xs)

module _ (sv : Services) (now : ℕ) (ctx : HttpContext) (me : User) (call_id : ℕ) (w : World)
    (signed_in : ctx.user ≡ some me) where
  -- When a signed-in user who is in a stored call leaves it, the reply says whether the call has
  -- ended; it has ended exactly when nobody is in it any more, and then, and only then, the call
  -- is stored with the present time as its end.
  pub leave_call-is_in :
      (p : CallParticipant)
      (found : sv.find_first
          (λ p. takes_part call_id me.id p && is_none p.leave_time)
          w.chat.call_participants
        ≡ some p)
      (stored : any (call_is call_id) w.chat.call_sessions ≡ true)
      → let out = leave_call sv now ctx call_id w in
        (out.0 ≡ ok (left call_id (not (any (is_in call_id) out.1.chat.call_participants))))
        × (out.1.chat.call_sessions ≡ (
            if any (is_in call_id) out.1.chat.call_participants
            then w.chat.call_sessions
            else replace
                (call_is call_id)
                (λ c. record c { end_time = some now })
                w.chat.call_sessions))
  unfolding leave_call
  leave_call-is_in p found stored = elim (Bool-cases (any (is_in call_id) gone)) [
    | inl some_in ↦
        rw
          (
            signed_in,
            found,
            present,
            if◌then◌else◌,
            nobody (is_in call_id) gone,
            some_in,
            if◌then◌else◌,
            some_in,
            if◌then◌else◌,
          )
          (refl, refl)
    | inr none_in ↦
        rw
          (
            signed_in,
            found,
            present,
            if◌then◌else◌,
            nobody (is_in call_id) gone,
            none_in,
            if◌then◌else◌,
            stored,
            if◌then◌else◌,
            none_in,
            if◌then◌else◌,
          )
          (refl, refl)
  ]
    where
      gone : List CallParticipant
      gone =
          replace (λ q. q.id == p.id) (λ q. record q { leave_time = some now })
            w.chat.call_participants

      present : any (λ q. q.id == p.id) w.chat.call_participants ≡ true
      present = any_found sv _ (λ q. q.id == p.id) w.chat.call_participants p found (==_refl p.id)

  -- When a signed-in user joins a stored call, the user is in it afterwards, and the call keeps
  -- its end: a call that had ended stays ended with the user in it.
  join_call-is_in :
      (c : CallSession) (found : sv.find_first (call_is call_id) w.chat.call_sessions ≡ some c)
      → let out = join_call sv now ctx call_id w in
        (out.0 ≡ ok (joined call_id))
        × (any
              (λ p. takes_part call_id me.id p && is_none p.leave_time)
              out.1.chat.call_participants
            ≡ true)
        × (out.1.chat.call_sessions ≡ w.chat.call_sessions)
  unfolding join_call
  join_call-is_in c found =
      elim (Option-cases (sv.find_first (takes_part call_id me.id) w.chat.call_participants)) [
        | inl new ↦
            rw (found, signed_in, new, free new, if◌then◌else◌)
              (
                refl,
                any-mem _ (new_participant call_id me.id w.next_id) _
                    (Memᴰ.append_right w.chat.call_participants (Memᴰ.head refl))
                    (rw (==_refl call_id, ==_refl me.id) refl),
                refl,
              )
        | inr (p, old) ↦ elim (Option-cases p.leave_time) [
          | inl staying ↦
              rw (found, signed_in, old, staying, if◌then◌else◌)
                (
                  refl,
                  any_found sv _ _ w.chat.call_participants p old (rw (takes p old, staying) refl),
                  refl,
                )
          | inr (t, away) ↦
              rw
                (
                  found,
                  signed_in,
                  old,
                  away,
                  if◌then◌else◌,
                  any_found sv _ (λ q. q.id == p.id) w.chat.call_participants p old (==_refl p.id),
                  if◌then◌else◌,
                )
                (refl, rejoins p old, refl)
        ]
      ]
    where
      free :
          sv.find_first (takes_part call_id me.id) w.chat.call_participants ≡ none
          → any (takes_part call_id me.id) w.chat.call_participants ≡ false
      free new =
          any-eq-false (takes_part call_id me.id) w.chat.call_participants
            (λ p k. sv.find_first_none (takes_part call_id me.id) w.chat.call_participants new p k)

      takes :
          (p : CallParticipant)
          → sv.find_first (takes_part call_id me.id) w.chat.call_participants ≡ some p
          → takes_part call_id me.id p ≡ true
      takes p old = (sv.find_first_some (takes_part call_id me.id) w.chat.call_participants old).1

      rejoins :
          (p : CallParticipant)
          → sv.find_first (takes_part call_id me.id) w.chat.call_participants ≡ some p
          → any
              (λ p. takes_part call_id me.id p && is_none p.leave_time)
              (replace
                (λ q. q.id == p.id)
                (λ q. record q { leave_time = none })
                w.chat.call_participants)
            ≡ true
      rejoins p old =
          let k =
            mem-replace (λ q. q.id == p.id) (λ q. record q { leave_time = none })
              w.chat.call_participants p
              (sv.find_first_some (takes_part call_id me.id) w.chat.call_participants old).0 in
          any-mem _ (record p { leave_time = none }) _ (rw (==_refl p.id, if◌then◌else◌) at k)
            (rw (takes p old) refl)
