-- ===== src/Auth/Samples.antt =====
-- A server with a client's token and no worker's.
use rtlfarm.Prelude.{String, ◌≡◌, refl, ◌↔◌, ◌⊎◌, Bool, true, false, Option, none, some}
use rtlfarm.Auth.{
  Access, admitted, token_required, token_not_valid, assert_bind_allowed, client_auth, worker_auth,
  any_auth,
}
use rtlfarm.Auth.Admitted.{Holds, IsOpen, auth_lem}

abbrev guarded : Access
guarded = record { client_token = some "s3cret"; worker_token = none; insecure_bind = false }

abbrev unguarded : Access
unguarded = record guarded { client_token = none }

lower_case : any_auth guarded (some "bearer s3cret") ≡ admitted
unfolding any_auth
lower_case = refl

wrong_token : client_auth guarded (some "Bearer s3cre") ≡ token_not_valid
unfolding client_auth
wrong_token = refl

no_worker_token : worker_auth guarded (some "Bearer s3cret") ≡ token_required
unfolding worker_auth
no_worker_token = refl

no_scheme : client_auth guarded (some "s3cret") ≡ token_required
unfolding client_auth
no_scheme = refl

-- Without tokens the server may listen on a loopback address only.
abbrev addresses : String → Option Bool
addresses host = none

bind_refused : assert_bind_allowed addresses unguarded "farm.example" ≡ false
unfolding assert_bind_allowed
bind_refused = refl

bind_local : assert_bind_allowed addresses unguarded "localhost" ≡ true
unfolding assert_bind_allowed
bind_local = refl

abbrev upper_case : Option String
upper_case = some "BEARER s3cret"

auth_lem_example :
    ((client_auth guarded upper_case ≡ admitted)
      ↔ (IsOpen guarded ⊎ Holds upper_case (some "s3cret")))
    × ((worker_auth guarded upper_case ≡ admitted) ↔ (IsOpen guarded ⊎ Holds upper_case none))
    × ((any_auth guarded upper_case ≡ admitted)
        ↔ (IsOpen guarded ⊎ (Holds upper_case (some "s3cret") ⊎ Holds upper_case none)))
auth_lem_example = auth_lem guarded upper_case
