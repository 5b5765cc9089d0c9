-- ===== src/Errors.antt =====
-- Go errors as the program builds and inspects them: sentinels, wrapping by `%w`, and the errors of
-- the two registry clients. `errors.Is` and `errors.As` walk the tree of wrapped errors.
use unpacker.Base.{◌≡◌, ℕ, Bool, true, false, ◌||◌, String, Option, none, some}

-- What `errors.Is` looks for. The first three are declared by the program (exit.go, pull.go), the
-- others by oras-go's errdef package.
pub data Sentinel : Type 0 where
  limit_exceeded verification_failed use_crane_fallback : Sentinel
  errdef_not_found errdef_unsupported : Sentinel

pub data Error : Type 0 where
  -- `errors.New` of a sentinel
  sentinel : Sentinel → Error
  -- an error without anything wrapped: `errors.New`, `fmt.Errorf` with no `%w`, or a library's
  plain : String → Error
  -- `fmt.Errorf` with one `%w`
  wrap : String → Error → Error
  -- `fmt.Errorf` with two `%w`
  wrap_two : String → Error → Error → Error
  -- `limitErrorf`: a message of its own whose `Unwrap` is `ErrLimit`
  limit : String → Error
  -- `*transport.Error` of go-containerregistry and `*errcode.ErrorResponse` of oras-go
  crane_status : ℕ → Error
  oras_status : ℕ → Error

abbrev pub same_sentinel : Sentinel → Sentinel → Bool
same_sentinel limit_exceeded limit_exceeded = true
same_sentinel verification_failed verification_failed = true
same_sentinel use_crane_fallback use_crane_fallback = true
same_sentinel errdef_not_found errdef_not_found = true
same_sentinel errdef_unsupported errdef_unsupported = true
same_sentinel _ _ = false

-- `errors.Is`
unfoldable pub error_is : Sentinel → Error → Bool
error_is t (sentinel s) = same_sentinel s t
error_is t (plain m) = false
error_is t (wrap m e) = error_is t e
error_is t (wrap_two m e f) = error_is t e || error_is t f
error_is t (limit m) = same_sentinel limit_exceeded t
error_is t (crane_status c) = false
error_is t (oras_status c) = false

abbrev or_found : Option ℕ → Option ℕ → Option ℕ
or_found none b = b
or_found (some a) b = some a

-- `errors.As` at the two client errors: the status of the first one found, depth first.
unfoldable pub crane_status_of : Error → Option ℕ
crane_status_of (crane_status c) = some c
crane_status_of (wrap m e) = crane_status_of e
crane_status_of (wrap_two m e f) = or_found (crane_status_of e) (crane_status_of f)
crane_status_of _ = none

unfoldable pub oras_status_of : Error → Option ℕ
oras_status_of (oras_status c) = some c
oras_status_of (wrap m e) = oras_status_of e
oras_status_of (wrap_two m e f) = or_found (oras_status_of e) (oras_status_of f)
oras_status_of _ = none

-- A value or an error.
pub data Result {ℓ} (A : Type ℓ) : Type ℓ where
  ok : A → Result A
  err : Error → Result A

-- `fmt.Errorf("…: %w", err)` around a failing call.
abbrev pub wrap_result {ℓ} : {A : Type ℓ} → String → Result A → Result A
wrap_result m (ok a) = ok a
wrap_result m (err e) = err (wrap m e)

-- The first of two errors.
abbrev pub first_error : Result (Unit {0}) → Result (Unit {0}) → Result (Unit {0})
first_error (ok u) r = r
first_error (err e) r = err e

-- What follows a value, where an error is passed on.
abbrev pub and_then {ℓ κ} : {A : Type ℓ} {B : Type κ} → Result A → (A → Result B) → Result B
and_then (ok a) f = f a
and_then (err e) f = err e

-- What holds of all that `f` gives holds of the whole, where it has gone through.
pub and_then-elim {ℓ κ μ} :
    {A : Type ℓ} {B : Type κ} {G : Type μ} (r : Result A) (f : A → Result B) {b : B}
    → ((a : A) → f a ≡ ok b → G)
    → and_then r f ≡ ok b
    → G
and_then-elim (ok a) f next h = next a h
and_then-elim (err e) f next h = cc
