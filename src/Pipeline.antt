-- ===== src/Pipeline.antt =====
-- src/rtlfarm/expand/pipeline.py: the rules that relate one part of the file to another.
pub mod Sound
pub mod Graph
pub mod Visit
pub mod Cycles
pub mod Rules
pub mod Scan
pub mod Validity
pub mod Parse
mod Samples
use rtlfarm.Prelude.{
  ℕ, zero, suc, String, Bool, true, false, List, [], ◌∷◌, ◌==◌, ◌||◌, contains, lookup, keys,
  length, Option, none, some, if◌then◌else◌, Result, ok, raise, out_of_fuel, ◌>>=◌, string_eq,
}
use rtlfarm.Models.{Stage}

abbrev pub Stages : Type 0
Stages = List (String × Stage)

-- The sets `done` and `path` of `_has_cycle`, the latest entry first.
pub record Search : Type 0 where
  pub done : List String
  pub path : List String

abbrev pub discard : String → List String → List String
discard name [] = []
discard name (x ∷ xs) = if x == name then xs else x ∷ discard name xs

-- path.add(name)
abbrev pub enter : String → Search → Search
enter name s = record s { path = name ∷ s.path }

-- path.discard(name); done.add(name)
abbrev pub leave : String → Search → Search
leave name s = record { done = name ∷ s.done; path = discard name s.path }

-- any(visit(dep) for dep in deps)
unfoldable pub any_visit :
    (Search → String → Result (Bool × Search)) → List String → Search → Result (Bool × Search)
any_visit visit [] s = ok (false, s)
any_visit visit (dep ∷ deps) s = visit s dep >>= λ (found, s'). elim found [
  | true ↦ ok (true, s')
  | false ↦ any_visit visit deps s'
]

-- The fuel bounds the depth of the recursion.
unfoldable pub visit : Stages → ℕ → Search → String → Result (Bool × Search)
unfolding any_visit
visit stages zero s name = raise out_of_fuel
visit stages (suc fuel) s name =
    let search = λ (stage : Stage).
      any_visit (visit stages fuel) stage.depends_on (enter name s) >>= λ (found, s').
      ok (found, leave name s') in
    if contains s.path name
    then ok (true, s)
    else if contains s.done name
    then ok (false, s)
    else elim (lookup stages name) [ none ↦ ok (false, s) | some stage ↦ search stage ]

abbrev pub fresh : Search
fresh = record { done = []; path = [] }

-- No path is longer than the number of stages, so this depth is enough.
unfoldable pub has_cycle : Stages → Result Bool
unfolding visit
has_cycle stages =
    any_visit (visit stages (suc (length stages))) (keys stages) fresh >>= λ (found, _). ok found
