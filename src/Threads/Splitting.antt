-- ===== src/Threads/Splitting.antt =====
-- The place of a message among the messages of its thread, in order of time
-- (`findIndex` and `slice` in src/intelligence/intelligence.service.ts).
use mathlib.Core.List.Memᴰ
use auth_backend.Base.{
  ℕ, ◌≤◌, ◌≡◌, refl, ◌⊎◌, true, false, some, List, [], ◌∷◌, Memᴰ, any, filter, length, IsAscending,
  inl, inr, Bool-cases, ==_iff, arith, if◌then◌else◌, ◌==◌, mem-any, length-mem, filter-mem,
}
use auth_backend.Model.Ai.{ThreadMessage}
use auth_backend.Threads.{message_has_id, split_at}

-- The messages before a message with an id are not later, those after it not earlier, there is no
-- other message, and the id does not come again.
pub record IsSplit (i : ℕ) (messages before : List ThreadMessage) (m : ThreadMessage)
    (after : List ThreadMessage) : Type 0 where
  pub known : Memᴰ m messages
  pub is_it : m.id ≡ i
  pub earlier : (r : ThreadMessage) → Memᴰ r before → r.created_at ≤ m.created_at
  pub later : (r : ThreadMessage) → Memᴰ r after → Memᴰ r messages × (m.created_at ≤ r.created_at)
  pub complete : (r : ThreadMessage) → Memᴰ r messages → Memᴰ r before ⊎ ((r ≡ m) ⊎ Memᴰ r after)
  pub once : any (message_has_id i) after ≡ false

-- The list of a message that is there splits.
pub split_at-IsSplit :
    (i : ℕ) (messages : List ThreadMessage)
    → IsAscending (λ (m : ThreadMessage). m.created_at) messages
    → any (message_has_id i) messages ≡ true
    → length (filter (message_has_id i) messages) ≤ 1
    → (before : List ThreadMessage) × (m : ThreadMessage) × (after : List ThreadMessage) × (split_at
          i messages
        ≡ some (before, m, after))
      × IsSplit i messages before m after
split_at-IsSplit i [] ordered there once = absurd (ground (arith, there))
split_at-IsSplit i (x ∷ xs) (least, ordered) there once = elim (Bool-cases (x.id == i)) [
  | inl here ↦ (
    [],
    x,
    xs,
    rw (here, if◌then◌else◌) refl,
    record {
      known = Memᴰ.head refl;
      is_it = (==_iff x.id i).0 here;
      earlier = λ r m. elim m [ ];
      later = λ r m. (Memᴰ.tail m, least r m);
      complete =
          λ r m. elim (Memᴰ.cases_cons m) [ inl same ↦ inr (inl same) | inr n ↦ inr (inr n) ];
      once = no_more here;
    },
  )
  | inr away ↦
      let (before, m, after, e, s) =
        split_at-IsSplit i xs ordered (ground (arith, away, there)) (ground (arith, away, once)) in
      (
        x ∷ before,
        m,
        after,
        rw (away, if◌then◌else◌, e) refl,
        record {
          known = Memᴰ.tail s.known;
          is_it = s.is_it;
          earlier = λ r n. elim (Memᴰ.cases_cons n) [
            | inl same ↦ rw same (least m s.known)
            | inr k ↦ s.earlier r k
          ];
          later = λ r n. let (k, le) = s.later r n in (Memᴰ.tail k, le);
          complete = λ r n. elim (Memᴰ.cases_cons n) [
            | inl same ↦ inl (Memᴰ.head same)
            | inr k ↦ elim (s.complete r k) [ inl b ↦ inl (Memᴰ.tail b) | inr rest ↦ inr rest ]
          ];
          once = s.once;
        },
      )
]
  where
    no_more : (x.id == i) ≡ true → any (message_has_id i) xs ≡ false
    no_more here = elim (Bool-cases (any (message_has_id i) xs)) [
      | inl again ↦
          let (r, m, e) = mem-any (message_has_id i) xs again in
          absurd (
            ground (
              arith,
              here,
              once,
              length-mem (filter (message_has_id i) xs) r (filter-mem (message_has_id i) xs r m e),
            ))
      | inr never ↦ never
    ]
