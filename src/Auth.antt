-- ===== src/Auth.antt =====
-- src/rtlfarm/control/app.py: who may call a route, and where the server may listen without tokens.
--
-- A header is Latin-1, in which A to Z are the only characters that `lower` turns into letters of
-- `bearer`. `hmac.compare_digest` on the UTF-8 of two texts is their equality. What `ipaddress` says of a
-- text is an argument: `none` where it is no address.
pub mod Admitted
mod Samples
use rtlfarm.Prelude.{
  ℕ, ◌+◌, String, Bool, true, false, not, ◌&&◌, ◌||◌, map, List, [], ◌∷◌, ◌==◌, leb,
  nat_lists_equal, Option, none, some, if◌then◌else◌, nat_eq, string_eq,
}
use rtlfarm.Ids.{codes}

-- The fields of `Config` that these functions read.
pub record Access : Type 0 where
  pub client_token : Option String
  pub worker_token : Option String
  pub insecure_bind : Bool

-- The call returns, or it raises an ApiError 401 with one of two messages.
pub data Verdict : Type 0 where
  admitted token_required token_not_valid : Verdict

abbrev pub is_given : Option String → Bool
is_given none = false
is_given (some token) = true

unfoldable pub auth_enabled : Access → Bool
auth_enabled config = is_given config.client_token || is_given config.worker_token

module _ (loopback_address : String → Option Bool) where
  unfoldable pub is_loopback : String → Bool
  is_loopback host =
      if host == "localhost"
      then true
      else elim (loopback_address host) [ none ↦ false | some answer ↦ answer ]

  -- Whether the call returns; else InsecureBind.
  unfoldable pub assert_bind_allowed : Access → String → Bool
  unfolding auth_enabled is_loopback
  assert_bind_allowed config host = auth_enabled config || config.insecure_bind || is_loopback host

abbrev pub space : ℕ
space = 32

-- header.partition(" "), without the separator.
unfoldable pub partition : List ℕ → List ℕ × List ℕ
partition [] = ([], [])
partition (c ∷ cs) =
    let rest = partition cs in if c == space then ([], cs) else (c ∷ rest.0, rest.1)

unfoldable pub lower : ℕ → ℕ
lower c = if leb b'A' c && leb c b'Z' then c + 32 else c

unfoldable pub is_bearer : List ℕ → Bool
unfolding lower
is_bearer scheme = nat_lists_equal (map lower scheme) (codes "bearer")

abbrev pub is_nil : List ℕ → Bool
is_nil [] = true
is_nil (c ∷ cs) = false

abbrev pub header_text : Option String → List ℕ
header_text none = []
header_text (some header) = codes header

-- The token of the header `Authorization`.
unfoldable pub bearer : Option String → Option (List ℕ)
unfolding partition is_bearer
bearer header =
    let parts : List ℕ × List ℕ = partition (header_text header) in
    if not (is_bearer parts.0) || is_nil parts.1 then none else some parts.1

-- _check
unfoldable pub check : Access → Option String → Option String → Verdict
unfolding auth_enabled bearer
check config header expected =
    if auth_enabled config
    then elim expected [
      | none ↦ token_required
      | some token ↦ elim (bearer header) [
        | none ↦ token_required
        | some presented ↦
            if nat_lists_equal presented (codes token) then admitted else token_not_valid
      ]
    ]
    else admitted

unfoldable pub client_auth : Access → Option String → Verdict
unfolding check
client_auth config header = check config header config.client_token

unfoldable pub worker_auth : Access → Option String → Verdict
unfolding check
worker_auth config header = check config header config.worker_token

unfoldable pub any_auth : Access → Option String → Verdict
unfolding check
any_auth config header = elim (check config header config.client_token) [
  | admitted ↦ admitted
  | token_required ↦ check config header config.worker_token
  | token_not_valid ↦ check config header config.worker_token
]
