-- ===== src/Models/Seeds.antt =====
-- src/rtlfarm/models.py: `_expand_seed_range`, which runs on a target's `seeds` before they are parsed.
mod Ranges
mod Samples
use rtlfarm.Prelude.{
  ℕ, zero, suc, String, Bool, true, false, not, ◌&&◌, ◌||◌, Option, none, some, List, [], ◌∷◌, leb,
  ltb, ◌==◌, if◌then◌else◌, string_eq,
}
use rtlfarm.Models.{max_seeds_per_target}

-- What a YAML file may hold there; `negative n` is -(n + 1), and `other` is any value that is neither an
-- `int`, a `bool` nor a `dict`.
mutual
  pub data Value : Type 0 where
    int negative : ℕ → Value
    boolean : Bool → Value
    other : String → Value
    mapping : Entries → Value

  pub data Entries : Type 0 where
    empty : Entries
    entry : String → Value → Entries → Entries

-- value[key]
unfoldable pub get : Entries → String → Option Value
get empty key = none
get (entry k v rest) key = if k == key then some v else get rest key

pub data Expanded : Type 0 where
  unchanged : Value → Expanded
  seeds : List ℕ → Expanded
  wrong_keys bad_n too_many bad_base : Expanded

unfoldable pub range : ℕ → ℕ → List ℕ
range base zero = []
range base (suc n) = base ∷ range (suc base) n

-- An `int`, not a `bool`, of at least 1.
unfoldable pub positive : Value → Option ℕ
positive (int n) = if leb 1 n then some n else none
positive _ = none

-- The keys are n and base and no other.
unfoldable pub only_n_base : Entries → Bool
only_n_base empty = true
only_n_base (entry k v rest) = (k == "n" || k == "base") && only_n_base rest

unfoldable pub from_base : ℕ → Option ℕ → Expanded
from_base n none = bad_base
from_base n (some base) = seeds (range base n)

unfoldable pub from_n : Option ℕ → Value → Expanded
unfolding positive from_base
from_n none base = bad_n
from_n (some n) base = if ltb max_seeds_per_target n then too_many else from_base n (positive base)

unfoldable pub from_entries : Bool → Option Value → Option Value → Expanded
unfolding positive from_n
from_entries true (some n) (some base) = from_n (positive n) base
from_entries _ _ _ = wrong_keys

unfoldable pub expand_seed_range : Value → Expanded
unfolding from_entries get only_n_base
expand_seed_range (mapping d) = from_entries (only_n_base d) (get d "n") (get d "base")
expand_seed_range value = unchanged value
