-- ===== src/Chat/Groups/Pages.antt =====
-- The cached pages of a group's messages.
use auth_backend.Base.{ℕ, String, ◌≡◌, refl, if◌then◌else◌, Option, some, none}
use auth_backend.Model.{
  World, HttpContext, User, GroupMember, Cached, group_messages_key, group_page_key,
}
use auth_backend.Action.{ok, type_error, or_raise, ◌>>=◌}
use auth_backend.Services.{Services}
use auth_backend.Chat.Store.{group_members_table}
use auth_backend.Chat.Groups.{is_member_of, send_as, value, send_group_message, get_group_messages}
use auth_backend.Store.{find_first}

-- What a reader of a page needs of a world.
abbrev SamePages : Services → ℕ → World → World → Type 0
SamePages sv group_id w v =
    ((later page page_size : ℕ)
      → sv.cached v.chat.cache later (group_page_key group_id page page_size)
        ≡ sv.cached w.chat.cache later (group_page_key group_id page page_size))
    × (v.chat.group_members ≡ w.chat.group_members)

module _ (sv : Services) (now : ℕ) (ctx : HttpContext) (sent_to : ℕ) (content : String)
    (group_id : ℕ) (w : World) where
  send_as_pages :
      (o : Option GroupMember) (me : User)
      → SamePages sv group_id w (send_as sv now o me sent_to content w).1
  send_as_pages none me = (λ later page page_size. refl, refl)
  send_as_pages (some m) me = (
    λ later page page_size.
        sv.cached-cache_del w.chat.cache later (group_messages_key sent_to)
          (group_page_key group_id page page_size) refl,
    refl,
  )

  send_pages : SamePages sv group_id w (send_group_message sv now ctx sent_to content w).1
  unfolding send_group_message
  send_pages = of ctx.user
    where
      of :
          (user : Option User)
          → SamePages sv group_id w
              ((or_raise user type_error >>= (λ me.
                  find_first sv group_members_table (is_member_of sent_to me.id)
                  >>= (λ membership. send_as sv now membership me sent_to content)))
                w).1
      of none = (λ later page page_size. refl, refl)
      of (some me) =
          send_as_pages (sv.find_first (is_member_of sent_to me.id) w.chat.group_members) me

  -- While the cache keeps a page of a group's messages, a member who asks for that page gets the
  -- cached one, also after a message was sent to the group: sending leaves the page in the cache.
  get_group_messages-send_group_message :
      (later : ℕ) (reader : HttpContext) (r : User) (m : GroupMember) (c : Cached)
      (page_size page : ℕ) (signed_in : reader.user ≡ some r)
      (is_member : sv.find_first (is_member_of group_id r.id) w.chat.group_members ≡ some m)
      (cached : sv.cached w.chat.cache later (group_page_key group_id page page_size) ≡ some c)
      → get_group_messages sv later reader group_id page_size page
          (send_group_message sv now ctx sent_to content w).1
        ≡ (ok (value c), (send_group_message sv now ctx sent_to content w).1)
  unfolding get_group_messages
  get_group_messages-send_group_message later reader r m c page_size page signed_in is_member
        cached =
      let (pages, members) = send_pages in
      rw (signed_in, members, is_member, pages later page page_size, cached, if◌then◌else◌) refl
