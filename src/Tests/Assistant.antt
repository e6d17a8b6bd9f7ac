-- ===== src/Tests/Assistant.antt =====
-- A small enumeration of models, and a user with an instruction.
use mathlib.Core.List.Memᴰ
use auth_backend.Base.{◌≡◌, String, true, [], ◌∷◌, Memᴰ, none, arith}
use auth_backend.Model.{World}
use auth_backend.Model.Ai.{ModelPricing, UserInstruction}
use auth_backend.Action.{ok}
use auth_backend.Assistant.Models.{ai_models, is_value, bulk_add_models}
use auth_backend.Assistant.Models.Sync.{bulk_add_models_synchronises}
use auth_backend.Assistant.Instructions.{create_chat_user_instruction}
use auth_backend.Assistant.Instructions.Limits.{
  IsLimited, creates, stop, next, InstructionRun-IsLimited,
}
use auth_backend.Tests.Fixtures.{services, world, no_ai}

abbrev old_model : ModelPricing
old_model = record {
  id = 70;
  name = "Gemini";
  quantity = 1;
  type = "both";
  model = "gemini-1.0";
  description = none;
  active = true;
}

abbrev with_old_model : World
with_old_model = record world { ai = record no_ai { model_pricings = old_model ∷ [] } }

bulk_add_models_synchronises_example :
    let out = bulk_add_models services ai_models with_old_model in
    (out.0 ≡ ok tt)
    × ((name model : String)
        → Memᴰ (name, model) ai_models
        → (r : ModelPricing) × Memᴰ r out.1.ai.model_pricings × (r.name ≡ name) × (r.model ≡ model))
    × ((r : ModelPricing)
        → Memᴰ r out.1.ai.model_pricings
        → r.active ≡ true
        → is_value ai_models r ≡ true)
bulk_add_models_synchronises_example =
    bulk_add_models_synchronises services ai_models with_old_model

abbrev advice : UserInstruction
advice = record { id = 71; user_id = 1; job = "Answer briefly." }

abbrev advised : World
advised = record world { ai = record no_ai { user_instructions = advice ∷ [] } }

within : IsLimited advised.ai.user_instructions
within = record {
  few = λ u. ground arith;
  short = λ r m. rw (Memᴰ.eq_of_singleton m) (omega arith);
}

InstructionRun-IsLimited_example :
    IsLimited
      (create_chat_user_instruction services 1 "Use metric units." advised).1.ai.user_instructions
InstructionRun-IsLimited_example =
    InstructionRun-IsLimited services (next (creates 1 "Use metric units." advised) (stop _)) within
