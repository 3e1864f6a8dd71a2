-- ===== src/Ids.antt =====
-- src/rtlfarm/ids.py: names, ULIDs, task and attempt ids.
--
-- A regular expression that is matched whole is a Boolean function on the text's code points. Seeds
-- and attempt numbers are natural numbers, so the test `seed < 0` never fires.
pub mod Decimal
pub mod Distinct
pub mod Ulid
mod Samples
use Prim.Native.Char.{code}
use rtlfarm.Prelude.{
  ℕ, String, ◌++ˢ◌, Bool, true, false, not, ◌&&◌, ◌||◌, List, [], ◌∷◌, leb, ltb, ◌==◌, length, all,
  contains, if◌then◌else◌, Result, ok, raise, invalid_name, not_a_ulid, unknown_stage_kind,
  attempt_out_of_range, ◌>>=◌, ◌>>◌, nat_eq, string_eq,
}
use Decimal.{decimal}

-- The code points of a text.
abbrev pub codes : String → List ℕ
codes String.[] = []
codes (String.◌∷◌ c s) = code c ∷ codes s

abbrev between : ℕ → ℕ → ℕ → Bool
between lo hi c = leb lo c && leb c hi

-- [A-Za-z0-9_-]
unfoldable pub is_name_char : ℕ → Bool
is_name_char c =
    between b'A' b'Z' c || between b'a' b'z' c || between b'0' b'9' c || c == b'_' || c == b'-'

-- NAME_RE.fullmatch
unfoldable pub is_name : String → Bool
unfolding is_name_char
is_name s = let cs = codes s in leb 1 (length cs) && leb (length cs) 64 && all is_name_char cs

abbrev pub stage_kinds : List String
stage_kinds = "lint" ∷ "compile" ∷ "simulate" ∷ "coverage" ∷ []

abbrev pub whole_design_target : String
whole_design_target = "_"

-- [0-9A-HJKMNP-TV-Z]
unfoldable pub is_ulid_char : ℕ → Bool
is_ulid_char c =
    between b'0' b'9' c
    || between b'A' b'H' c
    || between b'J' b'K' c
    || between b'M' b'N' c
    || between b'P' b'T' c
    || between b'V' b'Z' c

abbrev is_ulid_codes : List ℕ → Bool
unfolding is_ulid_char
is_ulid_codes [] = false
is_ulid_codes (c ∷ cs) = between b'0' b'7' c && length cs == 25 && all is_ulid_char cs

-- _ULID_RE.fullmatch
unfoldable pub is_ulid : String → Bool
unfolding is_ulid_codes
is_ulid s = is_ulid_codes (codes s)

unfoldable pub validate_name : String → Result String
unfolding is_name
validate_name name = if is_name name then ok name else raise (invalid_name name)

-- The text that `task_id` returns.
unfoldable pub task_id_text : String → String → String → ℕ → String
task_id_text job_id stage_kind target seed =
    job_id ++ˢ ("." ++ˢ (stage_kind ++ˢ ("." ++ˢ (target ++ˢ ("." ++ˢ ("s" ++ˢ decimal seed))))))

unfoldable pub task_id : String → String → String → ℕ → Result String
unfolding is_ulid validate_name task_id_text
task_id job_id stage_kind target seed =
    if not (is_ulid job_id)
    then raise (not_a_ulid job_id)
    else if not (contains stage_kinds stage_kind)
    then raise (unknown_stage_kind stage_kind)
    else if target == whole_design_target
    then ok (task_id_text job_id stage_kind target seed)
    else (validate_name target >> ok (task_id_text job_id stage_kind target seed))

unfoldable pub attempt_id : String → ℕ → Result String
attempt_id task attempt =
    if ltb attempt 1
    then raise (attempt_out_of_range attempt)
    else ok (task ++ˢ ("." ++ˢ ("a" ++ˢ decimal attempt)))
