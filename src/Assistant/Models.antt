-- ===== src/Assistant/Models.antt =====
-- The models of the providers: the enumeration `AIModels` (src/intelligence/enums/models.enum.ts), and
-- listModels, getModel, createModel, bulkAddModels, updateModel and deleteModel
-- (src/intelligence/intelligence.service.ts). The prices are left out.
pub mod Sync
use auth_backend.Base.{
  ℕ, String, Bool, true, false, not, ◌&&◌, Option, none, some, List, [], ◌∷◌, ◌++◌, any, given_or,
  or_kept, str_eq, ◌==◌, if◌then◌else◌,
}
use auth_backend.Base.Text.{concat}
use auth_backend.Model.{World}
use auth_backend.Model.Ai.{ModelPricing, AiTables}
use auth_backend.Action.{Action, pure, or_raise, not_found, ◌>>=◌, ◌>>◌}
use auth_backend.Services.{Services}
use auth_backend.Store.{Table, create, update, update_many, find_first, find_many}
use auth_backend.Projects.Store.{with_ai}

-- The names of the enumeration with their values.
abbrev pub ai_models : List (String × String)
ai_models =
    ("Gemini", "gemini-2.0-flash")
    ∷ ("GeminiFast", "gemini-2.0-flash-lite")
    ∷ ("GeminiPro", "gemini-2.5-pro-exp-03-25")
    ∷ ("GeminiFlash_2_5", "gemini-2.5-flash-preview-04-17")
    ∷ ("GPT4OMini", "gpt-4o-mini-2024-07-18")
    ∷ ("GTP40", "chatgpt-4o-latest")
    ∷ ("GPT_o3_mini", "o3-mini")
    ∷ ("GPT_o4_mini", "o4-mini")
    ∷ ("GPT4_1", "gpt-4.1")
    ∷ ("GPT4_1_mini", "gpt-4.1-mini")
    ∷ ("GPT4_1_nano", "gpt-4.1-nano")
    ∷ ("DeepseekV3_0324", "deepseek/deepseek-chat-v3-0324:free")
    ∷ ("DeepseekR1", "deepseek/deepseek-r1:free")
    ∷ ("DeepseekR1T", "tngtech/deepseek-r1t-chimera:free")
    ∷ ("DeepseekProverV2", "deepseek/deepseek-prover-v2:free")
    ∷ ("Qwen2_5VL72B", "qwen/qwen2.5-vl-72b-instruct:free")
    ∷ ("Mistral_Small_3_1_24B", "mistralai/mistral-small-3.1-24b-instruct:free")
    ∷ ("Gemma_3_27B", "google/gemma-3-27b-it:free")
    ∷ ("Reka_Flash_3", "rekaai/reka-flash-3:free")
    ∷ ("Gemini2_5_Pro_Open", "google/gemini-2.5-pro-exp-03-25:free")
    ∷ ("Qwen3_Ultra", "qwen/qwen3-235b-a22b:free")
    ∷ ("Qwen3_Mini", "qwen/qwen3-30b-a3b:free")
    ∷ ("Qwen3_32B", "qwen/qwen3-32b:free")
    ∷ ("Llama3_Ultra", "nvidia/llama-3.1-nemotron-ultra-253b-v1:free")
    ∷ ("Mistral_Small_3_Instruct", "accounts/fireworks/models/mistral-small-24b-instruct-2501")
    ∷ ("Deepseek_R1_Groq", "deepseek-r1-distill-llama-70b")
    ∷ ("Deepseek_R1_GroqQwen", "deepseek-r1-distill-qwen-32b")
    ∷ ("Llama_3_3_70B_vers", "llama-3.3-70b-versatile")
    ∷ ("Llama_3_2_90B_vision", "llama-3.2-90b-vision-preview")
    ∷ ("Llama_3_70B", "llama3-70b-8192")
    ∷ ("QwQ_32_B", "qwen-qwq-32b")
    ∷ ("Llama_4_Scout", "meta-llama/llama-4-scout-17b-16e-instruct")
    ∷ ("Llama_4_Maverick", "meta-llama/llama-4-maverick-17b-128e-instruct")
    ∷ ("CompoundGroq", "compound-beta")
    ∷ ("CompoundGroqMini", "compound-beta-mini")
    ∷ ("Claude37Sonnet", "claude-3-7-sonnet-20250219")
    ∷ ("Claude35SonnetNew", "claude-3-5-sonnet-20241022")
    ∷ ("Claude35Haiku", "claude-3-5-haiku-20241022")
    ∷ []

abbrev pub model_pricings_table : Table ModelPricing
model_pricings_table = record {
  rows = λ w. w.ai.model_pricings;
  put = λ rs w. let t = w.ai in with_ai w (record t { model_pricings = rs });
}

-- The columns of a model, each of which an update may leave out.
pub record ModelChanges : Type 0 where
  pub name : Option String
  pub quantity : Option ℕ
  pub type : Option String
  pub model : Option String
  pub description : Option String
  pub active : Option Bool

abbrev pub pricing_is : ℕ → ModelPricing → Bool
pricing_is i r = r.id == i

abbrev pub has_name : String → ModelPricing → Bool
has_name name r = str_eq r.name name

abbrev pub has_model : String → ModelPricing → Bool
has_model model r = str_eq r.model model

-- A record with the name of a model of the enumeration, but another model.
abbrev pub is_outdated : String → String → ModelPricing → Bool
is_outdated name model r = has_name name r && not (has_model model r)

abbrev pub inactive : ModelPricing → ModelPricing
inactive r = record r { active = false }

abbrev pub from_enum : String × String → ℕ → ModelPricing
from_enum (name, model) i = record {
  id = i;
  name = name;
  quantity = 1000000;
  type = "both";
  model = model;
  description = some (concat (name ∷ " model from enum" ∷ []));
  active = true;
}

-- The value of some member of the enumeration.
abbrev pub is_value : List (String × String) → ModelPricing → Bool
is_value models r = any (λ (name, model). str_eq r.model model) models

abbrev pub create_models : List (String × String) → Action (Unit {0})
create_models [] = pure tt
create_models (m ∷ ms) = do create model_pricings_table (from_enum m); create_models ms

module _ (sv : Services) where
  unfoldable pub list_models : Action (List ModelPricing)
  list_models = find_many sv model_pricings_table (λ r. r.active)

  unfoldable pub get_model : ℕ → Action ModelPricing
  get_model i = do
    r ← find_first sv model_pricings_table (pricing_is i)
    or_raise r (not_found "Model not found")

  unfoldable pub create_model : String → ℕ → String → String → Option String → Action ModelPricing
  create_model name quantity type model description = create model_pricings_table (λ i. record {
    id = i;
    name = name;
    quantity = quantity;
    type = type;
    model = model;
    description = description;
    active = true;
  })

  unfoldable pub update_model : ℕ → ModelChanges → Action (Unit {0})
  update_model i c = update model_pricings_table (pricing_is i) (λ r. record r {
    name = given_or c.name r.name;
    quantity = given_or c.quantity r.quantity;
    type = given_or c.type r.type;
    model = given_or c.model r.model;
    description = or_kept c.description r.description;
    active = given_or c.active r.active;
  })

  unfoldable pub delete_model : ℕ → Action (Unit {0})
  delete_model i = update model_pricings_table (pricing_is i) inactive

  -- The models to create: one whose record is missing, after the older variants are deactivated.
  abbrev pub outdate : List ModelPricing → String × String → Action (List (String × String))
  outdate existing (name, model) =
      if any (has_model model) existing
      then pure []
      else (update_many model_pricings_table (is_outdated name model) inactive
          >> pure ((name, model) ∷ []))

  abbrev pub to_create : List (String × String) → Action (List (String × String))
  to_create [] = pure []
  to_create ((name, model) ∷ rest) = do
    existing ← find_many sv model_pricings_table (has_name name)
    missing ← outdate existing (name, model)
    later ← to_create rest
    pure (missing ++ later)

  -- An `updateMany` without a row to change, and a `createMany` of nothing, do nothing.
  unfoldable pub bulk_add_models : List (String × String) → Action (Unit {0})
  bulk_add_models models = do
    missing ← to_create models
    create_models missing
    update_many model_pricings_table (λ r. not (is_value models r)) inactive
