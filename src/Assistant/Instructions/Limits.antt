-- ===== src/Assistant/Instructions/Limits.antt =====
-- The limits on the instructions of users along any run of requests
-- (src/intelligence/intelligence.service.ts).
use auth_backend.Base.{
  ℕ, ◌≤◌, ◌≡◌, refl, ap, ◌∙◌, ◌⊎◌, String, Bool, true, false, not, List, [], ◌∷◌, Memᴰ, any, filter,
  length, inl, inr, Bool-cases, Option-cases, arith, if◌then◌else◌, ltb, leb, length-filter-append,
  mem-filter, mem-append_one, length-filter-filter,
}
use auth_backend.Model.{World}
use auth_backend.Model.Ai.{UserInstruction}
use auth_backend.Services.{Services}
use auth_backend.Store.{replace}
use auth_backend.Store.Rows.{replace-mem}
use auth_backend.Assistant.Instructions.{
  word_count, instruction_by, instruction_is, instruction_of, create_chat_user_instruction,
  update_chat_user_instruction, delete_chat_user_instruction,
}

-- No user has more than 20 instructions, and none of them has more than 30 words.
pub record IsLimited (rows : List UserInstruction) : Type 0 where
  pub few : (user_id : ℕ) → length (filter (instruction_by user_id) rows) ≤ 20
  pub short : (r : UserInstruction) → Memᴰ r rows → word_count r.job ≤ 30

pub data InstructionStep (sv : Services) : World → World → Type 0 where
  creates :
      (user_id : ℕ) (job : String) (w : World)
      → InstructionStep sv w (create_chat_user_instruction sv user_id job w).1
  updates :
      (user_id instruction_id : ℕ) (job : String) (w : World)
      → InstructionStep sv w (update_chat_user_instruction sv user_id instruction_id job w).1
  deletes :
      (user_id instruction_id : ℕ) (w : World)
      → InstructionStep sv w (delete_chat_user_instruction sv user_id instruction_id w).1

pub data InstructionRun (sv : Services) : World → World → Type 0 where
  stop : (w : World) → InstructionRun sv w w
  next : {w v u : World} → InstructionStep sv w v → InstructionRun sv v u → InstructionRun sv w u

length-filter-replace :
    (user_id : ℕ) (p : UserInstruction → Bool) (job : String) (rows : List UserInstruction)
    → length (filter (instruction_by user_id) (replace p (λ r. record r { job = job }) rows))
      ≡ length (filter (instruction_by user_id) rows)
length-filter-replace user_id p job [] = refl
length-filter-replace user_id p job (x ∷ xs) =
    ground (arith, length-filter-replace user_id p job xs)

module _ (sv : Services) (user_id : ℕ) (w : World) (h : IsLimited w.ai.user_instructions) where
  create_keeps :
      (job : String)
      → IsLimited (create_chat_user_instruction sv user_id job w).1.ai.user_instructions
  unfolding create_chat_user_instruction
  create_keeps job =
      elim (Bool-cases (leb 20 (length (filter (instruction_by user_id) w.ai.user_instructions)))) [
        | inl full ↦ rw (full, if◌then◌else◌) h
        | inr free ↦ elim (Bool-cases (ltb 30 (word_count job))) [
          | inl long ↦ rw (free, if◌then◌else◌, long, if◌then◌else◌) h
          | inr fits ↦
              rw (free, if◌then◌else◌, fits, if◌then◌else◌)
                (record {
                  few = λ u. ground (
                    arith,
                    h.few u,
                    free,
                    length-filter-append (instruction_by u) w.ai.user_instructions
                        (record { id = w.next_id; user_id = user_id; job = job }),
                  );
                  short = λ r m. elim (mem-append_one w.ai.user_instructions _ m) [
                    | inl k ↦ h.short r k
                    | inr new ↦
                        ground (arith, fits, ap (λ (x : UserInstruction). word_count x.job) new)
                  ];
                })
        ]
      ]

  update_keeps :
      (i : ℕ) (job : String)
      → IsLimited (update_chat_user_instruction sv user_id i job w).1.ai.user_instructions
  unfolding update_chat_user_instruction
  update_keeps i job =
      elim (Option-cases (sv.find_first (instruction_of user_id i) w.ai.user_instructions)) [
        | inl missing ↦ rw (missing, if◌then◌else◌) h
        | inr (r, e) ↦ elim (Bool-cases (ltb 30 (word_count job))) [
          | inl long ↦ rw (e, if◌then◌else◌, long, if◌then◌else◌) h
          | inr fits ↦ elim (Bool-cases (any (instruction_is i) w.ai.user_instructions)) [
            | inr gone ↦ rw (e, if◌then◌else◌, fits, if◌then◌else◌, gone, if◌then◌else◌) h
            | inl there ↦
                rw (e, if◌then◌else◌, fits, if◌then◌else◌, there, if◌then◌else◌)
                  (record {
                    few = λ u. omega (
                      arith,
                      h.few u,
                      length-filter-replace u (instruction_is i) job w.ai.user_instructions,
                    );
                    short = λ s m.
                        let (x, k, same) =
                          replace-mem (instruction_is i) (λ r. record r { job = job })
                            w.ai.user_instructions s m in
                        changed x s same fits (h.short x k) (Bool-cases (instruction_is i x));
                  })
          ]
        ]
      ]
    where
      changed :
          (x s : UserInstruction)
          → s ≡ (if instruction_is i x then record x { job = job } else x)
          → ltb 30 (word_count job) ≡ false
          → word_count x.job ≤ 30
          → (instruction_is i x ≡ true) ⊎ (instruction_is i x ≡ false)
          → word_count s.job ≤ 30
      changed x s same fits below (inl here) =
          let is_new : s ≡ record x { job = job } = same ∙ rw (here, if◌then◌else◌) refl in
          ground (arith, fits, ap (λ (y : UserInstruction). word_count y.job) is_new)
      changed x s same fits below (inr away) =
          let kept : s ≡ x = same ∙ rw (away, if◌then◌else◌) refl in
          ground (arith, below, ap (λ (y : UserInstruction). word_count y.job) kept)

  delete_keeps :
      (i : ℕ) → IsLimited (delete_chat_user_instruction sv user_id i w).1.ai.user_instructions
  unfolding delete_chat_user_instruction
  delete_keeps i =
      elim (Option-cases (sv.find_first (instruction_of user_id i) w.ai.user_instructions)) [
        | inl missing ↦ rw (missing, if◌then◌else◌) h
        | inr (r, e) ↦ elim (Bool-cases (any (instruction_is i) w.ai.user_instructions)) [
          | inr gone ↦ rw (e, if◌then◌else◌, gone, if◌then◌else◌) h
          | inl there ↦
              rw (e, if◌then◌else◌, there, if◌then◌else◌)
                (record {
                  few = λ u. omega (
                    arith,
                    h.few u,
                    length-filter-filter (λ r. not (instruction_is i r)) (instruction_by u)
                        w.ai.user_instructions,
                  );
                  short = λ s m.
                      h.short s
                        (mem-filter (λ r. not (instruction_is i r)) w.ai.user_instructions s m).0;
                })
        ]
      ]

-- Along any run of requests about instructions, by any users: as long as no user has more than 20
-- instructions and none has more than 30 words, this stays so.
pub InstructionRun-IsLimited :
    (sv : Services) {w v : World} (run : InstructionRun sv w v)
    (limited : IsLimited w.ai.user_instructions)
    → IsLimited v.ai.user_instructions
InstructionRun-IsLimited sv (stop w) h = h
InstructionRun-IsLimited sv (next (creates user_id job w) run) h =
    InstructionRun-IsLimited sv run (create_keeps sv user_id w h job)
InstructionRun-IsLimited sv (next (updates user_id instruction_id job w) run) h =
    InstructionRun-IsLimited sv run (update_keeps sv user_id w h instruction_id job)
InstructionRun-IsLimited sv (next (deletes user_id instruction_id w) run) h =
    InstructionRun-IsLimited sv run (delete_keeps sv user_id w h instruction_id)
