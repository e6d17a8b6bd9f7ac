-- ===== src/Chat/Gateway.antt =====
-- The live connections of users: `MessagingGateway` (src/messaging/messaging.gateway.ts). What it asks of
-- socket.io is a list of calls; the log and the listener for `ping` are left out. An id that may
-- be missing is optional. The rooms of groups are joined when their query answers, which is a
-- step of its own.
pub mod Connections
use auth_backend.Base.{
  ℕ, String, Bool, true, false, not, Option, none, some, List, any, filter, length, map, truthy,
  ◌==◌, ◌++◌, ◌∷◌, [], if◌then◌else◌,
}
use auth_backend.Base.Text.{substring}
use auth_backend.Model.{World, Contact, GroupMember}
use auth_backend.Action.{Result, ok, err, type_error}
use auth_backend.Services.{Services, Claims, access, refresh, reset_password, oauth_access}

pub data Room : Type 0 where
  user_room group_room call_room : ℕ → Room

-- The events that clients get, with their fields; the last field of most is the time.
pub data Event : Type 0 where
  connection_status : ℕ → Event
  refresh_messages : ℕ → ℕ → Event
  refresh_group_messages : ℕ → Contact → String → ℕ → Event
  group_created : ℕ → String → Option String → ℕ → Event
  added_to_group : ℕ → ℕ → Event
  incoming_call : ℕ → Contact → String → ℕ → Event
  user_joined_call : ℕ → Contact → ℕ → Event
  user_left_call : ℕ → ℕ → ℕ → Event
  call_signal ice_candidate : ℕ → Option ℕ → String → Event

-- `client.join`, `client.leave`, `client.disconnect`, `client.emit` and `server.to(room).emit`.
pub data SocketCall : Type 0 where
  joins leaves : ℕ → Room → SocketCall
  disconnects : ℕ → SocketCall
  tells : ℕ → Event → SocketCall
  emits : Room → Event → SocketCall

-- `userSockets`, and `client.data.userId` by the id of the client.
pub record Gateway : Type 0 where
  pub user_sockets : ℕ → Option (List ℕ)
  pub user_of : ℕ → Option ℕ
  pub calls : List SocketCall

abbrev pub set : {A : Type 0} → ℕ → A → (ℕ → A) → ℕ → A
set i a f j = if i == j then a else f j

abbrev pub call : SocketCall → Gateway → Gateway
call c g = record g { calls = g.calls ++ c ∷ [] }

-- `userSockets.get(userId) || []`.
abbrev pub entries : Option (List ℕ) → List ℕ
entries none = []
entries (some ids) = ids

abbrev pub sockets_of : Gateway → ℕ → List ℕ
sockets_of g user_id = entries (g.user_sockets user_id)

-- `payload.sub`, which every kind of token has.
abbrev pub subject : Claims → ℕ
subject (access i e r) = i
subject (refresh i) = i
subject (reset_password i) = i
subject (oauth_access i c s) = i

abbrev pub verified : Services → ℕ → Option String → Option Claims
verified sv now none = none
verified sv now (some token) = sv.verify token now

-- The client is one of the user's from now on.
abbrev pub admit : ℕ → ℕ → Gateway → Gateway
admit client user_id g =
    call (tells client (connection_status user_id))
      (record (call (joins client (user_room user_id)) g) {
        user_of = set client (some user_id) g.user_of;
        user_sockets = set user_id (some (sockets_of g user_id ++ client ∷ [])) g.user_sockets;
      })

abbrev pub admit_or_close : ℕ → Option Claims → Gateway → Gateway
admit_or_close client none g = call (disconnects client) g
admit_or_close client (some c) g = admit client (subject c) g

unfoldable pub handle_connection : Services → ℕ → ℕ → Option String → Gateway → Gateway
handle_connection sv now client token g = admit_or_close client (verified sv now (truthy token)) g

abbrev pub join_groups : ℕ → List GroupMember → Gateway → Gateway
join_groups client [] g = g
join_groups client (m ∷ ms) g =
    join_groups client ms (call (joins client (group_room m.group_id)) g)

unfoldable pub subscribe_to_user_groups : Services → World → ℕ → ℕ → Gateway → Gateway
subscribe_to_user_groups sv w client user_id g =
    join_groups client (sv.find_many (λ m. m.user_id == user_id) w.chat.group_members) g

abbrev pub some_left : List ℕ → Option (List ℕ)
some_left [] = none
some_left (i ∷ is) = some (i ∷ is)

abbrev pub remove_client : ℕ → Option ℕ → Gateway → Gateway
remove_client client none g = g
remove_client client (some user_id) g = record g {
  user_sockets =
      set user_id (some_left (filter (λ i. not (i == client)) (sockets_of g user_id)))
        g.user_sockets;
}

unfoldable pub handle_disconnect : ℕ → Gateway → Gateway
handle_disconnect client g = remove_client client (g.user_of client) g

unfoldable pub handle_message_sent : ℕ → Option ℕ → ℕ → Gateway → Gateway
handle_message_sent now none message_id g = g
handle_message_sent now (some receiver_id) message_id g =
    call (emits (user_room receiver_id) (refresh_messages now message_id)) g

unfoldable pub handle_group_message_sent : ℕ → Option ℕ → Contact → String → Gateway → Gateway
handle_group_message_sent now none sender content g = g
handle_group_message_sent now (some group_id) sender content g =
    call
      (emits (group_room group_id)
        (refresh_group_messages group_id sender (substring 50 content) now))
      g

abbrev emit_to_users : List ℕ → Event → Gateway → Gateway
emit_to_users [] e g = g
emit_to_users (i ∷ is) e g = emit_to_users is e (call (emits (user_room i) e) g)

unfoldable pub handle_group_created : ℕ → String → Option String → List ℕ → Gateway → Gateway
handle_group_created group_id name description members g =
    emit_to_users members (group_created group_id name description (length members)) g

-- For each client that `server.sockets.sockets` has; it is none where that map is missing, and
-- then reading it throws.
abbrev pub each_socket :
    Option (ℕ → Bool) → (ℕ → SocketCall) → List ℕ → Gateway → Result (Unit {0}) × Gateway
each_socket registry make [] g = (ok tt, g)
each_socket none make (i ∷ is) g = (err type_error, g)
each_socket (some has) make (i ∷ is) g =
    each_socket (some has) make is (if has i then call (make i) g else g)

abbrev add_members :
    Option (ℕ → Bool) → ℕ → ℕ → List ℕ → Result (Unit {0}) × Gateway → Result (Unit {0}) × Gateway
add_members registry now group_id members (err e, g) = (err e, g)
add_members registry now group_id [] (ok u, g) = (ok tt, g)
add_members registry now group_id (i ∷ is) (ok u, g) = add_members registry now group_id is (
    each_socket registry (λ s. joins s (group_room group_id)) (sockets_of g i)
      (call (emits (user_room i) (added_to_group group_id now)) g))

unfoldable pub handle_group_members_added :
    Option (ℕ → Bool) → ℕ → ℕ → List ℕ → Gateway → Result (Unit {0}) × Gateway
handle_group_members_added registry now group_id new_members g =
    add_members registry now group_id new_members (ok tt, g)

unfoldable pub handle_call_initiated : ℕ → ℕ → Contact → List ℕ → String → Gateway → Gateway
handle_call_initiated now call_id initiator participants type g =
    emit_to_users participants (incoming_call call_id initiator type now) g

unfoldable pub handle_call_participant_joined :
    Option (ℕ → Bool) → ℕ → ℕ → Contact → Gateway → Result (Unit {0}) × Gateway
handle_call_participant_joined registry now call_id user g =
    each_socket registry (λ s. joins s (call_room call_id)) (sockets_of g user.id)
      (call (emits (call_room call_id) (user_joined_call call_id user now)) g)

unfoldable pub handle_call_participant_left :
    Option (ℕ → Bool) → ℕ → ℕ → ℕ → Gateway → Result (Unit {0}) × Gateway
handle_call_participant_left registry now call_id user_id g =
    each_socket registry (λ s. leaves s (call_room call_id)) (sockets_of g user_id)
      (call (emits (call_room call_id) (user_left_call call_id user_id now)) g)

-- A signal whose recipient, call or data is missing is dropped.
unfoldable pub handle_call_signal : ℕ → Option ℕ → Option ℕ → Option String → Gateway → Gateway
handle_call_signal client (some recipient_id) (some call_id) (some data_sent) g =
    call (emits (user_room recipient_id) (call_signal call_id (g.user_of client) data_sent)) g
handle_call_signal client _ _ _ g = g

unfoldable pub handle_ice_candidate : ℕ → Option ℕ → Option ℕ → Option String → Gateway → Gateway
handle_ice_candidate client (some recipient_id) (some call_id) (some candidate) g =
    call (emits (user_room recipient_id) (ice_candidate call_id (g.user_of client) candidate)) g
handle_ice_candidate client _ _ _ g = g
