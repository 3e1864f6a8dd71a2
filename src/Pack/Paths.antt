-- ===== src/Pack/Paths.antt =====
-- `_bad_pattern`, `_bad_location` and `_expand_glob`.
use Prim.Native.Char.{Char, code}
use rtlfarm.Prelude.{
  ℕ, String, ◌++ˢ◌, Bool, false, not, ◌&&◌, ◌||◌, List, [], ◌∷◌, ◌==◌, contains, Option, none, some,
  if◌then◌else◌, nat_eq, string_eq,
}
use rtlfarm.Ids.{codes}
use rtlfarm.Models.{Role}
use rtlfarm.Sorting.{sorted, text_leq}

-- What the program asks the file system about pack-relative paths: `glob` is `root.glob`, in whatever
-- order the file system lists files, `refuses` says for which patterns it raises, `resolves_inside` is the last test of `_bad_location`, and `bytes` what is read of a file. `sha256`
-- is hashlib's: the hex digest of the bytes that it was updated with, one behind another.
pub record Tree : Type 0 where
  pub glob : String → List String
  pub refuses : String → Bool
  pub is_symlink : String → Bool
  pub is_file : String → Bool
  pub resolves_inside : String → Bool
  pub bytes : String → List ℕ
  pub sha256 : List ℕ → String

pub data PackMessage : Type 0 where
  no_pipeline_file use_forward_slashes must_be_relative no_parent matched_no_files : PackMessage
  matched_by_two : Role → Role → PackMessage
  symlink_at : String → PackMessage
  not_regular resolves_outside : PackMessage
  not_packed : String → Role → PackMessage

-- `place` is the field `where`.
pub record PackIssue : Type 0 where
  pub place : String
  pub message : PackMessage

abbrev pub PackIssues : Type 0
PackIssues = List PackIssue

abbrev pub excluded_dirs : List String
excluded_dirs = ".git" ∷ "__pycache__" ∷ []

abbrev on_first : Char → List String → List String
on_first c [] = String.◌∷◌ c "" ∷ []
on_first c (w ∷ ws) = String.◌∷◌ c w ∷ ws

-- path.split("/")
unfoldable pub split : String → List String
split String.[] = "" ∷ []
split (String.◌∷◌ c s) = let rest = split s in if code c == b'/' then "" ∷ rest else on_first c rest

abbrev pub proper : List String → List String
proper [] = []
proper (w ∷ ws) = let rest = proper ws in if w == "" || w == "." then rest else w ∷ rest

-- PurePosixPath(path).parts, of a relative path
unfoldable pub parts : String → List String
unfolding split
parts path = proper (split path)

abbrev pub is_absolute : String → Bool
is_absolute String.[] = false
is_absolute (String.◌∷◌ c s) = code c == b'/'

unfoldable pub bad_pattern : String → Option PackMessage
unfolding parts
bad_pattern pattern =
    if contains (codes pattern) b'\\'
    then some use_forward_slashes
    else if is_absolute pattern
    then some must_be_relative
    else if contains (parts pattern) ".."
    then some no_parent
    else none

abbrev pub meets : List String → List String → Bool
meets [] ys = false
meets (x ∷ xs) ys = contains ys x || meets xs ys

abbrev pub is_kept : Tree → List String → String → Bool
is_kept tree excluded rel =
    not (meets excluded_dirs (parts rel) || contains excluded rel)
    && (tree.is_symlink rel || tree.is_file rel)

abbrev pub keep : Tree → List String → List String → List String
keep tree excluded [] = []
keep tree excluded (rel ∷ rels) =
    let rest = keep tree excluded rels in if is_kept tree excluded rel then rel ∷ rest else rest

unfoldable pub expand_glob : Tree → List String → String → List String
unfolding parts
expand_glob tree excluded pattern = sorted text_leq (keep tree excluded (tree.glob pattern))

-- current / part
abbrev pub below : String → String → String
below current part = if current == "" then part else current ++ˢ ("/" ++ˢ part)

unfoldable pub bad_link : Tree → String → List String → Option PackMessage
bad_link tree current [] = none
bad_link tree current (part ∷ rest) =
    let later = bad_link tree (below current part) rest in
    if tree.is_symlink (below current part) then some (symlink_at (below current part)) else later

unfoldable pub bad_location : Tree → String → Option PackMessage
unfolding bad_link parts
bad_location tree rel = elim (bad_link tree "" (parts rel)) [
  | some problem ↦ some problem
  | none ↦
      if not (tree.is_file rel)
      then some not_regular
      else if not (tree.resolves_inside rel)
      then some resolves_outside
      else none
]
