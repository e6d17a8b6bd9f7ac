-- ===== src/Chat/Calls.antt =====
-- Calls: `initiateCall`, `joinCall`, `leaveCall` and `getCallParticipants` of
-- src/messaging/messaging.service.ts.
pub mod Ends
use auth_backend.Base.{
  ℕ, String, Bool, true, false, ◌&&◌, not, ◌+◌, Option, none, some, List, [], ◌∷◌, any, filter,
  length, is_none, ◌==◌, if◌then◌else◌,
}
use auth_backend.Model.{
  World, HttpContext, User, CallType, CallSession, CallParticipant, call_initiated,
  participant_joined, participant_left,
}
use auth_backend.Action.{Action, type_error, pure, gets, or_raise, ◌>>=◌, ◌>>◌}
use auth_backend.Services.{Services}
use auth_backend.Store.{create, create_unique, update, find_first, find_many, emit}
use auth_backend.Chat.Store.{call_sessions_table, call_participants_table}

abbrev pub call_is : ℕ → CallSession → Bool
call_is i c = c.id == i

abbrev pub takes_part : ℕ → ℕ → CallParticipant → Bool
takes_part call_id user_id p = p.call_id == call_id && p.user_id == user_id

-- In the call and not left.
abbrev pub is_in : ℕ → CallParticipant → Bool
is_in call_id p = p.call_id == call_id && is_none p.leave_time

-- `CallParticipant` is unique by call and user.
abbrev pub same_participant : CallParticipant → CallParticipant → Bool
same_participant p q = takes_part p.call_id p.user_id q

abbrev pub new_participant : ℕ → ℕ → ℕ → CallParticipant
new_participant call_id user_id i = record {
  id = i;
  call_id = call_id;
  user_id = user_id;
  leave_time = none;
}

abbrev pub new_call : ℕ → ℕ → CallType → ℕ → CallSession
new_call now initiator_id type i = record {
  id = i;
  initiator_id = initiator_id;
  type = type;
  start_time = now;
  end_time = none;
}

pub data JoinReply : Type 0 where
  joined : ℕ → JoinReply
  call_not_found : JoinReply

pub data LeaveReply : Type 0 where
  left : ℕ → Bool → LeaveReply
  not_in_call : LeaveReply

module _ (sv : Services) (now : ℕ) where
  -- The id of the call.
  unfoldable pub initiate_call : HttpContext → CallType → List ℕ → Action ℕ
  initiate_call ctx type participants = do
    me ← or_raise ctx.user type_error
    c ← create call_sessions_table (new_call now me.id type)
    create_unique call_participants_table same_participant (new_participant c.id me.id)
    emit (call_initiated c.id me.id participants)
    pure c.id

  -- The participant of the user that the call includes, if there is one.
  abbrev pub enter : ℕ → User → Option CallParticipant → Action (Unit {0})
  enter call_id me none = do
    create_unique call_participants_table same_participant (new_participant call_id me.id)
    pure tt
  enter call_id me (some p) =
      if is_none p.leave_time
      then pure tt
      else update call_participants_table (λ q. q.id == p.id) (λ q. record q { leave_time = none })

  abbrev pub join_existing : ℕ → HttpContext → Option CallSession → Action JoinReply
  join_existing call_id ctx none = pure call_not_found
  join_existing call_id ctx (some c) = do
    me ← or_raise ctx.user type_error
    p ← find_first sv call_participants_table (takes_part call_id me.id)
    enter call_id me p
    emit (participant_joined call_id me.id)
    pure (joined call_id)

  unfoldable pub join_call : HttpContext → ℕ → Action JoinReply
  join_call ctx call_id = do
    c ← find_first sv call_sessions_table (call_is call_id)
    join_existing call_id ctx c

  abbrev pub end_call : ℕ → ℕ → Action (Unit {0})
  end_call call_id remaining =
      if remaining == 0
      then update call_sessions_table (call_is call_id) (λ c. record c { end_time = some now })
      else pure tt

  abbrev pub leave_as : ℕ → User → Option CallParticipant → Action LeaveReply
  leave_as call_id me none = pure not_in_call
  leave_as call_id me (some p) = do
    update call_participants_table (λ q. q.id == p.id) (λ q. record q { leave_time = some now })
    remaining ← gets (λ w. length (filter (is_in call_id) w.chat.call_participants))
    end_call call_id remaining
    emit (participant_left call_id me.id)
    pure (left call_id (remaining == 0))

  unfoldable pub leave_call : HttpContext → ℕ → Action LeaveReply
  leave_call ctx call_id = do
    me ← or_raise ctx.user type_error
    p ←
        find_first sv call_participants_table
          (λ p. takes_part call_id me.id p && is_none p.leave_time)
    leave_as call_id me p

  unfoldable pub get_call_participants : ℕ → Action (List CallParticipant)
  get_call_participants call_id = find_many sv call_participants_table (is_in call_id)
