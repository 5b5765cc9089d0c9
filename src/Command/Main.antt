-- ===== src/Command/Main.antt =====
-- What the exit status of the whole program says.
use unpacker.Base.{ℕ, ◌≡◌, refl, ap, arith, true, Option, none, some}
use unpacker.Base.Text.{Bytes}
use unpacker.Errors.{Error, wrap, Result, ok, err, error_is, crane_status_of, oras_status_of}
use unpacker.System.{World, M, proceed, ◌>>=◌, wrapping}
use unpacker.Auth.{Credentials, resolve}
use unpacker.Exit.{exit_code, is_not_found, is_auth, has_status}
use unpacker.Exit.Laws.{exit_code_classifies}
use unpacker.Report.{RunResult}
use unpacker.Verify.Config.{VerifyConfig, validate, requested, IsMeaningful, validate_iff}
use unpacker.Verify.Sound.{Evidence}
use unpacker.Command.{Flags, config_of, Libraries, with_valid, run, run_root, error_of, main}
use unpacker.Pull.Crane.{pull}
use unpacker.Referrers.Fetch.{fetch_referrers}
use unpacker.Command.Gate.{Unpacked, run-Evidence}

validate-exit_code : (v : VerifyConfig) (e : Error) → validate v ≡ some e → exit_code (some e) ≡ 1
unfolding validate exit_code error_is is_not_found is_auth has_status crane_status_of oras_status_of
validate-exit_code v e h = ground arith

module _ (L : Libraries) (env : Bytes → Bytes) (flags : Flags) where
  -- Combinations of verification flags that are not meaningful end the program with exit status 1
  -- before anything is done: no result.json is written on this path, where the README has one on
  -- every terminating path, failures included.
  pub main-IsMeaningful : (w : World) → ¬ IsMeaningful flags.verify → main L env flags w ≡ (1, w)
  unfolding main run_root
  main-IsMeaningful w h = go (validate flags.verify) refl
    where
      rest : M (Unit {0})
      rest = do
        creds ← wrapping "credentials" (resolve env flags.config_path flags.is_public)
        run L (config_of flags creds)

      go :
          (v : Option Error)
          → validate flags.verify ≡ v
          → ◌≡◌ {A = ℕ × World}
              (exit_code (error_of L (with_valid L v rest w).0), (with_valid L v rest w).1)
              (1, w)
      go none e = absurd (h ((validate_iff flags.verify).0 e))
      go (some x) e = ap (λ n. (n, w)) (validate-exit_code flags.verify x e)

  -- The exit status 0 is for a run that went through.
  main-run :
      (w : World)
      → (main L env flags w).0 ≡ 0
      → (creds : Credentials) × (u : World) × (resolve env flags.config_path flags.is_public w
          ≡ (ok creds, u))
        × (run L (config_of flags creds) u ≡ (ok tt, (main L env flags w).1))
  unfolding main run_root
  main-run w = valid (validate flags.verify)
    where
      ended : (o : Result (Unit {0}) × World) → exit_code (error_of L o.0) ≡ 0 → o ≡ (ok tt, o.1)
      ended (ok t, u) h = refl
      ended (err e, u) h = absurd ((exit_code_classifies e).1 h)

      rest : Credentials → M (Unit {0})
      rest creds = run L (config_of flags creds)

      named : Result Credentials × World → Result Credentials × World
      named o = (elim o.0 [ ok c ↦ ok c | err e ↦ err (wrap "credentials" e) ], o.1)

      resolved :
          (o : Result Credentials × World)
          → exit_code (error_of L (proceed rest (named o)).0) ≡ 0
          → (creds : Credentials) × (u : World) × (o ≡ (ok creds, u))
            × (rest creds u ≡ (ok tt, (proceed rest (named o)).1))
      resolved (ok creds, u) h = (creds, u, refl, ended (rest creds u) h)
      resolved (err e, u) h = absurd ((exit_code_classifies (wrap "credentials" e)).1 h)

      found : M Credentials
      found = resolve env flags.config_path flags.is_public

      valid :
          (v : Option Error)
          → exit_code (error_of L (with_valid L v (wrapping "credentials" found >>= rest) w).0) ≡ 0
          → (creds : Credentials) × (u : World) × (found w ≡ (ok creds, u))
            × (rest creds u ≡ (ok tt, (with_valid L v (wrapping "credentials" found >>= rest) w).1))
      valid none h = resolved (found w) h
      valid (some e) h = absurd ((exit_code_classifies e).1 h)

  -- Where verification is requested, the program ends with 0 only after a run that has pulled the
  -- image, has downloaded the referrers of the digest that this pull answered, has the evidence that
  -- the verifier that is built of the flags accepts one of these downloaded bundles for that digest,
  -- and has then unpacked, with no path but result.json and the cache where sigstore-go keeps what it
  -- fetches by TUF changed in between.
  pub main-Evidence :
      (w : World)
      → requested flags.verify ≡ true
      → (main L env flags w).0 ≡ 0
      → (creds : Credentials) × (x : World) × (resolved : Bytes) × (pulled : World)
        × (fetched : RunResult) × (u : World) × (resolve env flags.config_path flags.is_public w
            ≡ (ok creds, x))
        × (pull L.registry L.crane (config_of flags creds) x ≡ (ok resolved, pulled))
        × (fetch_referrers L.registry L.encode (config_of flags creds) resolved pulled
            ≡ (ok fetched, u))
        × Evidence L.sigstore L.engine (config_of flags creds) resolved fetched.referrers u
        × Unpacked L (config_of flags creds) u (main L env flags w).1
  main-Evidence w asked h =
      let (creds, x, made, ran) = main-run w h in
      let (resolved, pulled, fetched, u, got, listed, evidence, unpacked) =
        run-Evidence L (config_of flags creds) x (main L env flags w).1 asked ran in
      (creds, x, resolved, pulled, fetched, u, made, got, listed, evidence, unpacked)
