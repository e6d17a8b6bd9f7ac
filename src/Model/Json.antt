-- ===== src/Model/Json.antt =====
-- The JSON values that the code stores (`Json` columns of prisma/schema.prisma and the arguments
-- of `JSON.stringify`).
use auth_backend.Base.{ℕ, String, Bool}

mutual
  pub data Json : Type 0 where
    null : Json
    bool : Bool → Json
    num : ℕ → Json
    str : String → Json
    arr : Items → Json
    obj : Fields → Json

  pub data Items : Type 0 where
    nil : Items
    cons : Json → Items → Items

  pub data Fields : Type 0 where
    end : Fields
    field : String → Json → Fields → Fields
