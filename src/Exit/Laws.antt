-- ===== src/Exit/Laws.antt =====
-- What an exit code says about the error behind it.
use unpacker.Base.{
  ℕ, ◌≡◌, ◌≢◌, ◌≤◌, ◌↔◌, ◌⊎◌, inl, inr, refl, arith, Bool, true, false, ◌||◌, ◌==◌, List, [], ◌∷◌,
  Option, none, some, String,
}
use unpacker.Errors.{Error, wrap, verification_failed, limit_exceeded, errdef_not_found}
use unpacker.Errors.{error_is, crane_status_of, oras_status_of}
use unpacker.Exit.{exit_code, is_not_found, is_auth, has_status, any_code}

-- Wrapping an error by `%w`, once or behind any message, keeps its exit code.
pub exit_code-wrap : (m : String) (e : Error) → exit_code (some (wrap m e)) ≡ exit_code (some e)
unfolding exit_code error_is crane_status_of oras_status_of
exit_code-wrap m e = ground arith

-- The status that a registry answered with: that of the crane error, and that of the oras error where
-- there is no crane error.
abbrev pub Answered : Error → ℕ → Type 0
Answered e status =
    (crane_status_of e ≡ some status)
    ⊎ ((crane_status_of e ≡ none) × (oras_status_of e ≡ some status))

-- A verification error is named before a limit, and a limit before what the registry says.
abbrev pub IsOfRegistry : Error → Type 0
IsOfRegistry e = (error_is verification_failed e ≡ false) × (error_is limit_exceeded e ≡ false)

abbrev pub IsMissing : Error → Type 0
IsMissing e = (error_is errdef_not_found e ≡ true) ⊎ Answered e 404

has_status-one : (e : Error) (s : ℕ) → (has_status e (s ∷ []) ≡ true) ↔ Answered e s
unfolding has_status any_code
has_status-one e s = go (crane_status_of e) (oras_status_of e)
  where
    go :
        (c o : Option ℕ)
        → (elim c [
          | some status ↦ status == s || false
          | none ↦ elim o [ some status ↦ status == s || false | none ↦ false ]
        ]
            ≡ true)
          ↔ ((c ≡ some s) ⊎ ((c ≡ none) × (o ≡ some s)))
    go (some c) o = (λ h. inl (ground arith), λ h. elim h [ inl e ↦ ground arith | inr p ↦ cc ])
    go none (some o) =
        (λ h. inr (refl, ground arith), λ h. elim h [ inl e ↦ cc | inr p ↦ ground (arith, p.1) ])
    go none none = (λ h. cc, λ h. elim h [ inl e ↦ cc | inr p ↦ cc (p.1) ])

has_status-two :
    (e : Error) (s t : ℕ)
    → (has_status e (s ∷ t ∷ []) ≡ true) ↔ ((has_status e (s ∷ []) || has_status e (t ∷ [])) ≡ true)
unfolding has_status any_code
has_status-two e s t = go (crane_status_of e) (oras_status_of e)
  where
    look : Option ℕ → Option ℕ → List ℕ → Bool
    look c o l = elim c [
      | some status ↦ any_code status l
      | none ↦ elim o [ some status ↦ any_code status l | none ↦ false ]
    ]

    go :
        (c o : Option ℕ)
        → (look c o (s ∷ t ∷ []) ≡ true) ↔ ((look c o (s ∷ []) || look c o (t ∷ [])) ≡ true)
    go (some c) o = ground arith
    go none (some o) = ground arith
    go none none = ground arith

is_not_found_iff : (e : Error) → (is_not_found e ≡ true) ↔ IsMissing e
unfolding is_not_found
is_not_found_iff e = let one = has_status-one e 404 in ground (arith, one)

is_auth_iff : (e : Error) → (is_auth e ≡ true) ↔ (Answered e 401 ⊎ Answered e 403)
unfolding is_auth
is_auth_iff e =
    let a = has_status-one e 401 in
    let b = has_status-one e 403 in let two = has_status-two e 401 403 in ground (arith, a, b, two)

-- The exit code 0 is for no error only, 4 is for exactly the verification errors, 5 for exactly the
-- limits that are no verification error, 2 for exactly the errors beside these that say not found or
-- carry the status 404, 3 for exactly those beside all these with the status 401 or 403, and 1 for
-- the rest.
pub exit_code_classifies :
    (e : Error)
    → (exit_code none ≡ 0)
      × (exit_code (some e) ≢ 0)
      × (exit_code (some e) ≤ 5)
      × ((exit_code (some e) ≡ 4) ↔ (error_is verification_failed e ≡ true))
      × ((exit_code (some e) ≡ 5)
          ↔ ((error_is verification_failed e ≡ false) × (error_is limit_exceeded e ≡ true)))
      × ((exit_code (some e) ≡ 2) ↔ (IsOfRegistry e × IsMissing e))
      × ((exit_code (some e) ≡ 3)
          ↔ (IsOfRegistry e × (¬ IsMissing e) × (Answered e 401 ⊎ Answered e 403)))
      × ((exit_code (some e) ≡ 1)
          ↔ (IsOfRegistry e × (¬ IsMissing e) × (¬ Answered e 401) × (¬ Answered e 403)))
unfolding exit_code
exit_code_classifies e =
    let missing = is_not_found_iff e in
    let denied = is_auth_iff e in ground (arith, missing, denied)
