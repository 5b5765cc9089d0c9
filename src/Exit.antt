-- ===== src/Exit.antt =====
-- internal/unpacker/exit.go: the classification of errors into exit codes.
pub mod Laws
use unpacker.Base.{ℕ, List, [], ◌∷◌, Bool, true, false, ◌||◌, ◌==◌, Option, none, some}
use unpacker.Base.{if◌then◌else◌}
use unpacker.Errors.{Error, Sentinel, limit_exceeded, verification_failed, errdef_not_found}
use unpacker.Errors.{error_is, crane_status_of, oras_status_of}

abbrev pub exit_ok : ℕ
exit_ok = 0

abbrev pub exit_failure : ℕ
exit_failure = 1

abbrev pub exit_not_found : ℕ
exit_not_found = 2

abbrev pub exit_auth : ℕ
exit_auth = 3

abbrev pub exit_verification : ℕ
exit_verification = 4

abbrev pub exit_limit : ℕ
exit_limit = 5

unfoldable pub any_code : ℕ → List ℕ → Bool
any_code status [] = false
any_code status (c ∷ codes) = status == c || any_code status codes

-- The crane error is looked for first, and the oras error only where there is none.
unfoldable pub has_status : Error → List ℕ → Bool
unfolding any_code
has_status e codes = elim (crane_status_of e) [
  | some status ↦ any_code status codes
  | none ↦ elim (oras_status_of e) [ some status ↦ any_code status codes | none ↦ false ]
]

unfoldable pub is_not_found : Error → Bool
unfolding has_status
is_not_found e = error_is errdef_not_found e || has_status e (404 ∷ [])

unfoldable pub is_auth : Error → Bool
unfolding has_status
is_auth e = has_status e (401 ∷ 403 ∷ [])

-- `none` stands for the nil error.
unfoldable pub exit_code : Option Error → ℕ
unfolding is_not_found is_auth
exit_code none = exit_ok
exit_code (some e) =
    if error_is verification_failed e
    then exit_verification
    else if error_is limit_exceeded e
    then exit_limit
    else if is_not_found e
    then exit_not_found
    else if is_auth e
    then exit_auth
    else exit_failure
