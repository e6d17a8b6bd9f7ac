-- ===== src/Chat/Gateway/Connections.antt =====
-- The sockets that the gateway keeps of each user (src/messaging/messaging.gateway.ts).
use auth_backend.Base.{
  ℕ, ◌≡◌, refl, ap, sym, ◌∙◌, ◌⊎◌, String, Bool, true, false, not, ◌&&◌, ◌||◌, Option, none, some,
  List, [], ◌∷◌, ◌++◌, any, filter, inl, inr, Bool-cases, Option-cases, ==_iff, arith,
  if◌then◌else◌, ◌==◌, any-append, truthy,
}
use auth_backend.Services.{Services}
use auth_backend.Projects.Manage.{same_id}
use auth_backend.Chat.Gateway.{
  Gateway, entries, sockets_of, subject, verified, admit, set, some_left, remove_client,
  handle_connection, handle_disconnect,
}

-- A client connects with a token, good or not, or goes. A client that connects is a new object,
-- without data, and one that goes was connected.
pub data GatewayStep (sv : Services) : Gateway × (ℕ → Bool) → Gateway × (ℕ → Bool) → Type 0 where
  connects :
      (now client : ℕ) (token : Option String) (g : Gateway) (open_clients : ℕ → Bool)
      → g.user_of client ≡ none
      → GatewayStep sv
          (g, open_clients)
          (handle_connection sv now client token g, set client true open_clients)
  leaves_us :
      (client : ℕ) (g : Gateway) (open_clients : ℕ → Bool)
      → GatewayStep sv (g, open_clients) (handle_disconnect client g, set client false open_clients)

pub data GatewayRun (sv : Services) : Gateway × (ℕ → Bool) → Gateway × (ℕ → Bool) → Type 0 where
  stop : (s : Gateway × (ℕ → Bool)) → GatewayRun sv s s
  next : {s t u : Gateway × (ℕ → Bool)} → GatewayStep sv s t → GatewayRun sv t u → GatewayRun sv s u

-- The sockets that are kept of a user are the open ones that were admitted as the user's.
pub record IsTracked (s : Gateway × (ℕ → Bool)) : Type 0 where
  pub tracked :
      (user_id client : ℕ)
      → any (λ i. i == client) (sockets_of s.0 user_id)
        ≡ (s.1 client && same_id (s.0.user_of client) user_id)

any-filter_others :
    (client other : ℕ) (ids : List ℕ)
    → any (λ i. i == other) (filter (λ i. not (i == client)) ids)
      ≡ (any (λ i. i == other) ids && not (client == other))
any-filter_others client other [] = refl
any-filter_others client other (i ∷ is) = ground (arith, any-filter_others client other is)

entries-some_left : (ids : List ℕ) → entries (some_left ids) ≡ ids
entries-some_left [] = refl
entries-some_left (i ∷ is) = refl

entries-set :
    (i j : ℕ) (o : Option (List ℕ)) (f : ℕ → Option (List ℕ))
    → entries (set i o f j) ≡ (if i == j then entries o else entries (f j))
entries-set i j o f = elim (Bool-cases (i == j)) [
  | inl same ↦ rw (same, if◌then◌else◌) refl
  | inr other ↦ rw (other, if◌then◌else◌) refl
]

false_and : (b : Bool) → (b && false) ≡ false
false_and b = ground arith

-- The two sides of a step, from those before it.
module _ (g : Gateway) (open_clients : ℕ → Bool) (h : IsTracked (g, open_clients))
    (client : ℕ) where
  close_keeps : g.user_of client ≡ none → IsTracked (g, set client true open_clients)
  close_keeps new = record {
    tracked = λ u s. elim (Bool-cases (client == s)) [
      | inl same ↦
          let unknown : g.user_of s ≡ none = ap g.user_of (sym ((==_iff client s).0 same)) ∙ new in
          h.tracked u s ∙ rw (same, unknown, if◌then◌else◌) (false_and (open_clients s))
      | inr other ↦ h.tracked u s ∙ rw (other, if◌then◌else◌) refl
    ];
  }

  admit_keeps :
      (user_id : ℕ)
      → g.user_of client ≡ none
      → IsTracked (admit client user_id g, set client true open_clients)
  admit_keeps user_id new = record {
    tracked = λ u s.
        let kept = sockets_of g user_id ++ client ∷ [] in
        ap (any (λ i. i == s)) (entries-set user_id u (some kept) g.user_sockets)
        ∙ elim (Bool-cases (user_id == u)) [
          | inl mine ↦
              rw (mine, if◌then◌else◌)
                (any-append (λ i. i == s) (sockets_of g user_id) (client ∷ [])
                  ∙ own u s mine (Bool-cases (client == s)))
          | inr other ↦ rw (other, if◌then◌else◌) (not_own u s other (Bool-cases (client == s)))
        ];
  }
    where
      unknown : (s : ℕ) → (client == s) ≡ true → g.user_of s ≡ none
      unknown s same = ap g.user_of (sym ((==_iff client s).0 same)) ∙ new

      own :
          (u s : ℕ)
          → (user_id == u) ≡ true
          → ((client == s) ≡ true) ⊎ ((client == s) ≡ false)
          → (any (λ i. i == s) (sockets_of g user_id) || (client == s || false))
            ≡ (set client true open_clients s && same_id (set client (some user_id) g.user_of s) u)
      own u s mine (inl same) = rw (same, if◌then◌else◌) (ground (arith, mine))
      own u s mine (inr away) =
          rw (away, if◌then◌else◌)
            (ground (arith, h.tracked user_id s)
              ∙ ap (λ i. open_clients s && same_id (g.user_of s) i) ((==_iff user_id u).0 mine))

      not_own :
          (u s : ℕ)
          → (user_id == u) ≡ false
          → ((client == s) ≡ true) ⊎ ((client == s) ≡ false)
          → any (λ i. i == s) (sockets_of g u)
            ≡ (set client true open_clients s && same_id (set client (some user_id) g.user_of s) u)
      not_own u s other (inl same) =
          h.tracked u s
          ∙ rw (same, if◌then◌else◌, unknown s same) (false_and (open_clients s) ∙ sym other)
      not_own u s other (inr away) = h.tracked u s ∙ rw (away, if◌then◌else◌) refl

  remove_keeps :
      (o : Option ℕ)
      → g.user_of client ≡ o
      → IsTracked (remove_client client o g, set client false open_clients)
  remove_keeps none known = record {
    tracked = λ u s. elim (Bool-cases (client == s)) [
      | inl same ↦
          let unknown : g.user_of s ≡ none =
            ap g.user_of (sym ((==_iff client s).0 same)) ∙ known in
          h.tracked u s ∙ rw (same, unknown, if◌then◌else◌) (false_and (open_clients s))
      | inr other ↦ h.tracked u s ∙ rw (other, if◌then◌else◌) refl
    ];
  }
  remove_keeps (some user_id) known = record {
    tracked = λ u s.
        let rest = filter (λ i. not (i == client)) (sockets_of g user_id) in
        ap (any (λ i. i == s)) (entries-set user_id u (some_left rest) g.user_sockets)
        ∙ elim (Bool-cases (user_id == u)) [
          | inl mine ↦
              rw (mine, if◌then◌else◌, entries-some_left rest)
                (any-filter_others client s (sockets_of g user_id)
                  ∙ own u s mine (Bool-cases (client == s)))
          | inr other ↦ rw (other, if◌then◌else◌) (not_own u s other (Bool-cases (client == s)))
        ];
  }
    where
      own :
          (u s : ℕ)
          → (user_id == u) ≡ true
          → ((client == s) ≡ true) ⊎ ((client == s) ≡ false)
          → (any (λ i. i == s) (sockets_of g user_id) && not (client == s))
            ≡ (set client false open_clients s && same_id (g.user_of s) u)
      own u s mine (inl same) = rw (same, if◌then◌else◌) (false_and _)
      own u s mine (inr away) =
          rw (away, if◌then◌else◌)
            (ground (arith, h.tracked user_id s)
              ∙ ap (λ i. open_clients s && same_id (g.user_of s) i) ((==_iff user_id u).0 mine))

      not_own :
          (u s : ℕ)
          → (user_id == u) ≡ false
          → ((client == s) ≡ true) ⊎ ((client == s) ≡ false)
          → any (λ i. i == s) (sockets_of g u)
            ≡ (set client false open_clients s && same_id (g.user_of s) u)
      not_own u s other (inl same) =
          let his : g.user_of s ≡ some user_id =
            ap g.user_of (sym ((==_iff client s).0 same)) ∙ known in
          h.tracked u s
          ∙ rw (same, if◌then◌else◌, his)
              (ap (λ b. open_clients s && b) other ∙ false_and (open_clients s))
      not_own u s other (inr away) = h.tracked u s ∙ rw (away, if◌then◌else◌) refl

-- Whatever clients connect, with whatever tokens, and go, in any order: if the gateway keeps of each
-- user exactly the sockets that are open and were admitted as the user's, it does so after. So a
-- client that has gone, or whose token was refused, is in no list.
pub GatewayRun-IsTracked :
    (sv : Services) {s t : Gateway × (ℕ → Bool)} (run : GatewayRun sv s t) (tracked : IsTracked s)
    → IsTracked t
unfolding handle_connection handle_disconnect
GatewayRun-IsTracked sv (stop s) h = h
GatewayRun-IsTracked sv (next (connects now client token g open_clients new) run) h =
    GatewayRun-IsTracked sv run (elim (Option-cases (verified sv now (truthy token))) [
      | inl refused ↦
          rw refused (record { tracked = (close_keeps g open_clients h client new).tracked })
      | inr (c, e) ↦ rw e (admit_keeps g open_clients h client (subject c) new)
    ])
GatewayRun-IsTracked sv (next (leaves_us client g open_clients) run) h =
    GatewayRun-IsTracked sv run (remove_keeps g open_clients h client (g.user_of client) refl)
