-- ===== src/Dag/StageOrder.antt =====
-- `_stage_order`.
use rtlfarm.Prelude.{
  ℕ, zero, suc, String, true, false, List, [], ◌∷◌, ◌++◌, contains, lookup, keys, length, all, none,
  some, Result, ok, raise, key_error, stop_iteration, out_of_fuel, ◌>>=◌, string_eq,
}
use rtlfarm.Pipeline.{Stages, discard}

-- next(name for name in remaining if all(dep in ordered ...))
unfoldable pub next_ready : Stages → List String → List String → Result String
next_ready stages ordered [] = raise stop_iteration
next_ready stages ordered (name ∷ remaining) = elim (lookup stages name) [
  | none ↦ raise (key_error name)
  | some stage ↦ elim (all (contains ordered) stage.depends_on) [
    | true ↦ ok name
    | false ↦ next_ready stages ordered remaining
  ]
]

unfoldable pub order_loop : Stages → ℕ → List String → List String → Result (List String)
order_loop stages fuel ordered [] = ok ordered
order_loop stages zero ordered (r ∷ rs) = raise out_of_fuel
order_loop stages (suc fuel) ordered (r ∷ rs) = next_ready stages ordered (r ∷ rs) >>= λ ready.
    order_loop stages fuel (ordered ++ ready ∷ []) (discard ready (r ∷ rs))

-- Each round takes one name away, so a round for each stage is enough.
unfoldable pub stage_order : Stages → Result (List String)
stage_order stages = order_loop stages (length stages) [] (keys stages)
