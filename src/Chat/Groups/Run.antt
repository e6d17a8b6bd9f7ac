-- ===== src/Chat/Groups/Run.antt =====
-- Runs of requests about groups (src/messaging/messaging.controller.ts), in any order and at any
-- times.
use auth_backend.Base.{ℕ, String, Option, List}
use auth_backend.Model.{World, HttpContext}
use auth_backend.Services.{Services}
use auth_backend.Chat.Groups.{
  create_group, get_user_groups, add_group_members, remove_group_members, send_group_message,
  get_group_messages,
}

-- One request, at any arguments.
pub data GroupStep (sv : Services) : World → World → Type 0 where
  creates :
      (now : ℕ) (ctx : HttpContext) (name : String) (description : Option String) (members : List ℕ)
      (w : World)
      → GroupStep sv w (create_group sv now ctx name description members w).1
  lists : (now user_id : ℕ) (w : World) → GroupStep sv w (get_user_groups sv now user_id w).1
  adds :
      (now : ℕ) (ctx : HttpContext) (group_id : ℕ) (user_ids : List ℕ) (w : World)
      → GroupStep sv w (add_group_members sv now ctx group_id user_ids w).1
  removes :
      (now : ℕ) (ctx : HttpContext) (group_id : ℕ) (user_ids : List ℕ) (w : World)
      → GroupStep sv w (remove_group_members sv now ctx group_id user_ids w).1
  sends :
      (now : ℕ) (ctx : HttpContext) (group_id : ℕ) (content : String) (w : World)
      → GroupStep sv w (send_group_message sv now ctx group_id content w).1
  reads :
      (now : ℕ) (ctx : HttpContext) (group_id page_size page : ℕ) (w : World)
      → GroupStep sv w (get_group_messages sv now ctx group_id page_size page w).1

-- Any number of requests, one after the other.
pub data GroupRun (sv : Services) : World → World → Type 0 where
  stop : (w : World) → GroupRun sv w w
  next : {w v u : World} → GroupStep sv w v → GroupRun sv v u → GroupRun sv w u
