-- ===== src/Prelude/Results.antt =====
-- What a Python call may do: return, or raise one of the program's exceptions.
use Prim.Native.Nat.{ℕ}
use Prim.Native.String.{String}
use mathlib.Core.Path.{◌≡◌, refl}
use mathlib.Core.List.{List}
use mathlib.Core.Logic.{◌⊎◌, inl, inr}

-- The exceptions that the modelled code raises, with what their messages name. `key_error` and
-- `stop_iteration` are Python's own, for a missing `dict` key and an exhausted `next`. `out_of_fuel` is the
-- model's own: a loop that would run on; the program's loops never do.
pub data Exception : Type 0 where
  no_such_target : List String → Exception
  no_targets_matched : Exception
  invalid_name : String → Exception
  not_a_ulid : String → Exception
  unknown_stage_kind : String → Exception
  clock_out_of_range : ℕ → Exception
  attempt_out_of_range : ℕ → Exception
  key_error : String → Exception
  stop_iteration : Exception
  integrity_error : Exception
  config_error : String → Exception
  overflow_error : Exception
  out_of_fuel : Exception

pub data Result {ℓ} (A : Type ℓ) : Type ℓ where
  ok : A → Result A
  raise : Exception → Result A

-- A call, then what the code does with its value; an exception ends both.
infixl 5 ◌>>=◌ ◌>>◌
abbrev pub ◌>>=◌ {ℓ κ} : {B : Type κ} {A : Type ℓ} → Result A → (A → Result B) → Result B
raise failure >>= next = raise failure
ok value >>= next = next value

abbrev pub ◌>>◌ {ℓ κ} : {A : Type ℓ} {B : Type κ} → Result A → Result B → Result B
call >> next = call >>= λ _. next

pub >>=-eq-ok {ℓ κ} :
    {A : Type ℓ} {B : Type κ} (call : Result A) (next : A → Result B) {result : B}
    → (call >>= next) ≡ ok result
    → (value : A) × (call ≡ ok value) × (next value ≡ ok result)
>>=-eq-ok (ok value) next h = (value, refl, h)
>>=-eq-ok (raise failure) next h = cc

pub Result-cases {ℓ} :
    {A : Type ℓ} (call : Result A)
    → ((value : A) × (call ≡ ok value)) ⊎ ((failure : Exception) × (call ≡ raise failure))
Result-cases (ok value) = inl (value, refl)
Result-cases (raise failure) = inr (failure, refl)

pub ok_inj {ℓ} : {A : Type ℓ} {a b : A} → ok a ≡ ok b → a ≡ b
ok_inj h = cc

pub ok-ne-raise {ℓ} : {A : Type ℓ} {a : A} {e : Exception} → ok a ≡ raise e → ⊥
ok-ne-raise h = cc
