-- ===== src/Dag/Select.antt =====
-- `select_targets` and `submission_hash`.
use rtlfarm.Prelude.{
  ℕ, String, Bool, false, not, ◌&&◌, ◌||◌, List, [], ◌∷◌, map, contains, take, none, some,
  if◌then◌else◌, Result, ok, raise, no_such_target, string_eq,
}
use rtlfarm.Models.{Target, Pipeline}
use rtlfarm.Json.{str, arr, obj, Fields, end, field, strs, optional_num, Codec}
use rtlfarm.Manifest.{Manifest, digest}
use rtlfarm.Pipeline.Rules.{is_empty}
use rtlfarm.Dag.{Selection}

abbrev pub absent : List String → List String → List String
absent known [] = []
absent known (x ∷ xs) = let rest = absent known xs in if contains known x then rest else x ∷ rest

abbrev pub intersects : List String → List String → Bool
intersects [] ys = false
intersects (x ∷ xs) ys = contains ys x || intersects xs ys

-- The two `continue` tests of the loop, the other way round.
unfoldable pub keeps : Selection → Target → Bool
keeps selection target =
    not (not (is_empty selection.targets) && not (contains selection.targets target.name))
    && not (not (is_empty selection.tags) && not (intersects selection.tags target.tags))

unfoldable pub chosen_seeds : Selection → List ℕ → List ℕ
chosen_seeds selection seeds = elim selection.seed [
  | some seed ↦ seed ∷ []
  | none ↦ elim selection.seeds [ some n ↦ take n seeds | none ↦ seeds ]
]

unfoldable pub kept : Selection → List Target → List Target
unfolding keeps chosen_seeds
kept selection [] = []
kept selection (target ∷ rest) =
    let others = kept selection rest in
    if keeps selection target
    then record target { seeds = chosen_seeds selection target.seeds } ∷ others
    else others

abbrev pub target_names : List Target → List String
target_names targets = map (λ t. Target.name t) targets

unfoldable pub select_targets : Pipeline → Selection → Result (List Target)
select_targets pipeline selection =
    let unknown = absent (target_names pipeline.targets) selection.targets in
    if is_empty unknown
    then ok (kept selection pipeline.targets)
    else raise (no_such_target unknown)

abbrev pub selection_fields : Selection → Fields
selection_fields s = field "tags" (arr (strs s.tags)) (
    field "targets" (arr (strs s.targets))
      (field "seeds" (optional_num s.seeds) (field "seed" (optional_num s.seed) end)))

unfoldable pub submission_hash : Codec → Manifest → Selection → String
submission_hash c manifest selection = c.sha256 (
    c.dumps (
      obj (
        field "manifest" (str (digest c manifest))
          (field "selection" (obj (selection_fields selection)) end))))
