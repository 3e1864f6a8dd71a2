-- ===== src/Json.antt =====
-- The plain data that `json.dumps` prints, and what the program takes from outside to print and hash.
use rtlfarm.Prelude.{ℕ, String, Bool, List, [], ◌∷◌, Option, none, some}
use rtlfarm.Models.{Pipeline}

mutual
  pub data Json : Type 0 where
    null : Json
    bool : Bool → Json
    num : ℕ → Json
    str : String → Json
    arr : Items → Json
    obj : Fields → Json

  pub data Items : Type 0 where
    nil : Items
    cons : Json → Items → Items

  pub data Fields : Type 0 where
    end : Fields
    field : String → Json → Fields → Fields

abbrev pub strs : List String → Items
strs [] = nil
strs (s ∷ ss) = cons (str s) (strs ss)

abbrev pub optional_num : Option ℕ → Json
optional_num none = null
optional_num (some n) = num n

-- `json.dumps` with sorted keys and no spaces, SHA-256 of a text in hex, and pydantic's `model_dump`.
pub record Codec : Type 0 where
  pub dumps : Json → String
  pub sha256 : String → String
  pub model_dump : Pipeline → Json
