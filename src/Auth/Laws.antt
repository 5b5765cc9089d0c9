-- ===== src/Auth/Laws.antt =====
-- The order in which credentials are looked for.
use unpacker.Base.{
  ◌≡◌, ◌≢◌, arith, refl, ◌⊎◌, inl, inr, ◌&&◌, ◌||◌, Bool, true, false, String, [], ◌∷◌, ◌++◌,
  Bool-cases,
}
use unpacker.Base.Text.{Bytes, codes}
use unpacker.Errors.{ok, err}
use unpacker.System.{World}
use unpacker.Auth.{Credentials, no_credentials, env_pair, env_missing, deprecated, resolve, filled}

-- A basic-auth pair is never half filled, and it is never mixed with a config file or a public pull:
-- whatever is resolved is exactly one of the three kinds.
abbrev pub IsOneKind : Credentials → Type 0
IsOneKind c =
    (c.is_public ≡ true) × (filled c.config_path || filled c.username || filled c.password ≡ false)
    ⊎ ((c.is_public ≡ false)
        × (filled c.config_path ≡ true)
        × (filled c.username || filled c.password ≡ false))
    ⊎ ((c.is_public ≡ false)
        × (filled c.config_path ≡ false)
        × (filled c.username && filled c.password ≡ true))

-- A pair of environment variables that is set in full.
abbrev pub IsFull : (Bytes → Bytes) → String → String → Type 0
IsFull env user pass = (filled (env (codes user)) ≡ true) × (filled (env (codes pass)) ≡ true)

abbrev pub pair_of : (Bytes → Bytes) → String → String → Credentials
pair_of env user pass = record no_credentials {
  username = env (codes user);
  password = env (codes pass);
}

-- Where the answer comes from: `--public`, else `--config`, else the prefixed pair, else the pair
-- without a prefix, and for this one alone a line is logged.
abbrev pub IsAnswer : (Bytes → Bytes) → Bytes → Bool → World → Credentials → World → Type 0
IsAnswer env config_path is_public w c v =
    ((is_public ≡ true) × (c ≡ record no_credentials { is_public = true }) × (v ≡ w))
    ⊎ ((is_public ≡ false)
        × (config_path ≢ [])
        × (c ≡ record no_credentials { config_path = config_path })
        × (v ≡ w))
    ⊎ ((is_public ≡ false)
        × (config_path ≡ [])
        × IsFull env "UNPACKER_USERNAME" "UNPACKER_PASSWORD"
        × (c ≡ pair_of env "UNPACKER_USERNAME" "UNPACKER_PASSWORD")
        × (v ≡ w))
    ⊎ ((is_public ≡ false)
        × (config_path ≡ [])
        × (¬ IsFull env "UNPACKER_USERNAME" "UNPACKER_PASSWORD")
        × IsFull env "USERNAME" "PASSWORD"
        × (c ≡ pair_of env "USERNAME" "PASSWORD")
        × (v ≡ record w { log = w.log ++ (deprecated ∷ []) }))

-- Nothing is configured: neither flag, and neither pair of variables in full.
abbrev pub IsUnset : (Bytes → Bytes) → Bytes → Bool → Type 0
IsUnset env config_path is_public =
    (is_public ≡ false)
    × (config_path ≡ [])
    × (¬ IsFull env "UNPACKER_USERNAME" "UNPACKER_PASSWORD")
    × (¬ IsFull env "USERNAME" "PASSWORD")

-- `Resolve` answers credentials of exactly one kind, public, a config file, or a full pair: from
-- `--public`, else from `--config`, else from the prefixed pair of variables, else from the pair
-- without a prefix, each where it is set, and it logs the warning for the last of these and nothing
-- for the others. It fails, and logs nothing, exactly where none of the four is set.
pub resolve-IsOneKind :
    (env : Bytes → Bytes) (config_path : Bytes) (is_public : Bool) (w : World)
    → ((c : Credentials) × (v : World) × (resolve env config_path is_public w ≡ (ok c, v))
        × IsOneKind c
        × IsAnswer env config_path is_public w c v)
      ⊎ ((resolve env config_path is_public w ≡ (err env_missing, w))
          × IsUnset env config_path is_public)
unfolding resolve env_pair
resolve-IsOneKind env config_path true w =
    inl (
      record no_credentials { is_public = true },
      w,
      refl,
      inl (refl, refl),
      inl (refl, refl, refl),
    )
resolve-IsOneKind env (c ∷ path) false w = inl (
  record no_credentials { config_path = c ∷ path },
  w,
  refl,
  inr (inl (refl, refl, refl)),
  inr (inl (refl, (λ h. cc), refl, refl)),
)
resolve-IsOneKind env [] false w = elim (Bool-cases (set "UNPACKER_USERNAME" "UNPACKER_PASSWORD")) [
  | inl e ↦ inl (
    pair_of env "UNPACKER_USERNAME" "UNPACKER_PASSWORD",
    w,
    rw e refl,
    inr (inr (refl, refl, e)),
    inr (inr (inl (refl, refl, in_full _ _ e, refl, refl))),
  )
  | inr e ↦ elim (Bool-cases (set "USERNAME" "PASSWORD")) [
    | inl f ↦ inl (
      pair_of env "USERNAME" "PASSWORD",
      record w { log = w.log ++ (deprecated ∷ []) },
      rw (e, f) refl,
      inr (inr (refl, refl, f)),
      inr (inr (inr (refl, refl, not_full _ _ e, in_full _ _ f, refl, refl))),
    )
    | inr f ↦ inr (rw (e, f) refl, (refl, refl, not_full _ _ e, not_full _ _ f))
  ]
]
  where
    set : String → String → Bool
    set user pass = filled (env (codes user)) && filled (env (codes pass))

    in_full : (a b : Bool) → a && b ≡ true → (a ≡ true) × (b ≡ true)
    in_full a b h = ground arith

    not_full : (a b : Bool) → a && b ≡ false → ¬ ((a ≡ true) × (b ≡ true))
    not_full a b h = ground arith
