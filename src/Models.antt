-- ===== src/Models.antt =====
-- src/rtlfarm/models.py: the pipeline definition as data.
--
-- A value of these types is a file that pydantic has parsed; the bounds that a field declares (a
-- pattern, `ge`, `gt`, `max_length`) are the Boolean test `is_shaped` on it. A float is its 64-bit
-- pattern: the program passes it on and computes nothing with it. A `dict` is its items in order.
pub mod Seeds
use rtlfarm.Prelude.{
  ℕ, ◌^◌, ◌-◌, ◌*◌, String, ◌≡◌, refl, ◌↔◌, Bool, true, false, ◌&&◌, Option, none, some, List, [],
  ◌∷◌, Eq, ◌==◌, ◌||◌, nat_eq, Distinct, leb, ltb, length, all, keys, map, arith,
}
use rtlfarm.Ids.{codes, is_name}

pub data Role : Type 0 where
  rtl include tb data' : Role

unfoldable pub role_beq : Role → Role → Bool
role_beq rtl rtl = true
role_beq include include = true
role_beq tb tb = true
role_beq data' data' = true
role_beq _ _ = false

pub role_beq_iff : (a b : Role) → (role_beq a b ≡ true) ↔ (a ≡ b)
unfolding role_beq
role_beq_iff a b = ground arith

instance abbrev pub role_eq : Eq Role
role_eq = record { beq = role_beq; beq_iff = role_beq_iff }

pub data Tool : Type 0 where
  fake iverilog : Tool

-- Literal["targets"]
pub data FanOut : Type 0 where
  targets : FanOut

abbrev pub artifact_kinds : List String
artifact_kinds = "compiled" ∷ []

abbrev pub max_seed : ℕ
max_seed = 2 ^ 31 - 1

abbrev pub max_seeds_per_target : ℕ
max_seeds_per_target = 10_000

-- `negative n` is -(n + 1).
pub data Scalar : Type 0 where
  text : String → Scalar
  int negative : ℕ → Scalar
  float : (bits : ℕ) → Scalar
  bool : Bool → Scalar

abbrev pub Scalars : Type 0
Scalars = List (String × Scalar)

pub record Design : Type 0 where
  pub name : String
  pub files : List (Role × List String)
  pub include_dirs : List String
  pub defines : Scalars
  pub params : Scalars
  pub timescale : Option String

pub record Target : Type 0 where
  pub name : String
  pub top : String
  pub tb : List String
  pub data_files : List String
  pub seeds : List ℕ
  pub tags : List String
  pub timeout_sim : String
  pub timeout_s : Option ℕ
  pub allow_zero_time : Bool
  pub plusargs : Scalars
  pub params : Scalars
  pub defines : Scalars

pub record Stage : Type 0 where
  pub tool : Tool
  pub consumes : List Role
  pub consumes_artifacts : List String
  pub depends_on : List String
  pub per_target : Bool
  pub fan_out : Option FanOut
  pub timeout_s : ℕ

pub record Retries : Type 0 where
  pub infra : ℕ
  pub timeout : ℕ
  pub tool_error : ℕ

pub record Policies : Type 0 where
  pub retries : Retries
  pub cache : List (String × Bool)

pub record Pipeline : Type 0 where
  pub design : Design
  pub toolchain_digest : Option String
  pub targets : List Target
  pub stages : List (String × Stage)
  pub policies : Policies

is_sha256_char : ℕ → Bool
is_sha256_char c = leb b'0' c && leb c b'9' || leb b'a' c && leb c b'f'

-- The pattern of `Sha256`.
unfoldable pub is_sha256 : String → Bool
unfolding is_sha256_char
is_sha256 s = let cs = codes s in length cs == 64 && all is_sha256_char cs

abbrev all_given {ℓ} : {A : Type ℓ} → (A → Bool) → Option A → Bool
all_given p none = true
all_given p (some a) = p a

-- Of each seed: ge=1, le=MAX_SEED.
abbrev pub are_seeds : List ℕ → Bool
are_seeds seeds = all (λ seed. leb 1 seed && leb seed max_seed) seeds

-- The bounds that `Target` declares. The pattern of `timeout_sim` is not modelled.
unfoldable pub is_target : Target → Bool
unfolding is_name
is_target t =
    is_name t.name
    && is_name t.top
    && are_seeds t.seeds
    && leb (length t.seeds) max_seeds_per_target
    && all is_name t.tags
    && all_given (λ s. ltb 0 s) t.timeout_s

-- The bounds that the models declare on a whole pipeline.
unfoldable pub is_shaped : Pipeline → Bool
unfolding is_target is_sha256
is_shaped p =
    is_name p.design.name
    && all_given is_sha256 p.toolchain_digest
    && all is_target p.targets
    && leb 1 (length p.stages)
    && all (λ item. ltb 0 (Stage.timeout_s item.1)) p.stages

-- What the parsed file is: within the bounds, and its `dict`s hold a key once.
pub record IsParsed (p : Pipeline) : Type 0 where
  pub shaped : is_shaped p ≡ true
  pub stage_keys : Distinct (keys p.stages)
  pub file_keys : Distinct (keys p.design.files)

-- Pipeline.stage_timeouts
abbrev pub stage_timeouts : Pipeline → List ℕ
stage_timeouts p = map (λ item. Stage.timeout_s item.1) p.stages
