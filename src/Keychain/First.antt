-- ===== src/Keychain/First.antt =====
-- Which entry of the docker config file is used.
use unpacker.Base.{
  ◌≡◌, ◌⊎◌, inl, inr, refl, sym, ap, subst, ◌∙◌, arith, Bool, true, false, List, [], ◌∷◌,
  if◌then◌else◌,
}
use unpacker.Base.Text.{Bytes}
use unpacker.Errors.{wrap, Result, ok, err, wrap_result}
use unpacker.System.{World, proceed, ◌>>=◌, pure, lift, read_file}
use unpacker.System.Reads.{Holds, read_file-Holds}
use unpacker.System.Yields.{Yields}
use unpacker.Keychain.{
  AuthConfig, is_filled, empty_config, Authenticator, anonymous, from_config, DockerConfig, spelled,
  find_config, authenticator, resolve_target,
}

module _ (D : DockerConfig) where
  abbrev unaddressed : AuthConfig → AuthConfig
  unaddressed c = record c { server_address = [] }

  -- The first key whose entry has anything in it, and that entry.
  pub data FirstFilled (cf : D.File) : List Bytes → AuthConfig → Type 0 where
    here :
        {key : Bytes} {keys : List Bytes} {c : AuthConfig}
        → D.get_auth_config cf (spelled D key) ≡ ok c
        → is_filled (unaddressed c) ≡ true
        → FirstFilled cf (key ∷ keys) (unaddressed c)
    there :
        {key : Bytes} {keys : List Bytes} {c d : AuthConfig}
        → D.get_auth_config cf (spelled D key) ≡ ok c
        → is_filled (unaddressed c) ≡ false
        → FirstFilled cf keys d
        → FirstFilled cf (key ∷ keys) d

  -- No entry has anything in it.
  pub data NoneFilled (cf : D.File) : List Bytes → Type 0 where
    done : NoneFilled cf []
    also :
        {key : Bytes} {keys : List Bytes} {c : AuthConfig}
        → D.get_auth_config cf (spelled D key) ≡ ok c
        → is_filled (unaddressed c) ≡ false
        → NoneFilled cf keys
        → NoneFilled cf (key ∷ keys)

  abbrev Found : D.File → List Bytes → AuthConfig → Type 0
  Found cf keys c =
      ((is_filled c ≡ true) × FirstFilled cf keys c) ⊎ ((is_filled c ≡ false) × NoneFilled cf keys)

  find_config-Found :
      (cf : D.File) (keys : List Bytes) (last c : AuthConfig)
      → is_filled last ≡ false
      → find_config D cf keys last ≡ ok c
      → Found cf keys c
  unfolding find_config
  find_config-Found cf [] last c empty h =
      let same : last ≡ c = ground arith in inr (sym (ap is_filled same) ∙ empty, done)
  find_config-Found cf (key ∷ keys) last c empty h =
      entry (D.get_auth_config cf (spelled D key)) refl h (find_config-Found cf keys)
    where
      Rest : Type 0
      Rest =
          (last c : AuthConfig)
          → is_filled last ≡ false
          → find_config D cf keys last ≡ ok c
          → Found cf keys c

      skipped :
          (found : AuthConfig)
          → D.get_auth_config cf (spelled D key) ≡ ok found
          → is_filled (unaddressed found) ≡ false
          → Found cf keys c
          → Found cf (key ∷ keys) c
      skipped found q no_entry (inl (full, first)) = inl (full, there q no_entry first)
      skipped found q no_entry (inr (none_full, rest)) = inr (none_full, also q no_entry rest)

      chosen :
          (found : AuthConfig) (b : Bool)
          → D.get_auth_config cf (spelled D key) ≡ ok found
          → is_filled (unaddressed found) ≡ b
          → (if b then ok (unaddressed found) else find_config D cf keys (unaddressed found)) ≡ ok c
          → Rest
          → Found cf (key ∷ keys) c
      chosen found true q full h rest =
          let same : unaddressed found ≡ c = ground arith in
          subst (Found cf (key ∷ keys)) same (inl (full, here q full))
      chosen found false q no_entry h rest =
          skipped found q no_entry (rest (unaddressed found) c no_entry h)

      entry :
          (r : Result AuthConfig)
          → D.get_auth_config cf (spelled D key) ≡ r
          → ◌≡◌ {A = Result AuthConfig}
              (elim r [
                | err e ↦ err (wrap "read credentials" e)
                | ok found ↦
                    let cfg = record found { server_address = [] } in
                    let rest = find_config D cf keys cfg in if is_filled cfg then ok cfg else rest
              ])
              (ok c)
          → Rest
          → Found cf (key ∷ keys) c
      entry (err e) q h rest = cc
      entry (ok found) q h rest = chosen found (is_filled (unaddressed found)) q refl h rest

  -- What is answered: the first filled entry of the two keys, or the anonymous one.
  abbrev pub Answers : D.File → List Bytes → Authenticator → Type 0
  Answers cf keys auth =
      ((c : AuthConfig) × (auth ≡ from_config c) × FirstFilled cf keys c)
      ⊎ ((auth ≡ anonymous) × NoneFilled cf keys)

  authenticator-Answers :
      (cf : D.File) (keys : List Bytes) (c : AuthConfig)
      → Found cf keys c
      → c.server_address ≡ []
      → Answers cf keys (authenticator D c)
  authenticator-Answers cf keys c (inl (full, first)) bare =
      inl (c, (rw (full, sym bare) refl), first)
  authenticator-Answers cf keys c (inr (empty, rest)) bare = inr ((rw empty refl), rest)

  find_config-unaddressed :
      (cf : D.File) (keys : List Bytes) (last c : AuthConfig)
      → last.server_address ≡ []
      → find_config D cf keys last ≡ ok c
      → c.server_address ≡ []
  unfolding find_config
  find_config-unaddressed cf [] last c bare h =
      let same : last ≡ c = ground arith in
      sym (ap (λ (a : AuthConfig). a.server_address) same) ∙ bare
  find_config-unaddressed cf (key ∷ keys) last c bare h =
      entry (D.get_auth_config cf (spelled D key)) h
        (λ found. find_config-unaddressed cf keys (unaddressed found) c refl)
    where
      Rest : Type 0
      Rest =
          (found : AuthConfig)
          → find_config D cf keys (unaddressed found) ≡ ok c
          → c.server_address ≡ []

      chosen :
          (found : AuthConfig) (b : Bool)
          → (if b then ok (unaddressed found) else find_config D cf keys (unaddressed found)) ≡ ok c
          → Rest
          → c.server_address ≡ []
      chosen found true h rest =
          let same : unaddressed found ≡ c = ground arith in
          sym (ap (λ (a : AuthConfig). a.server_address) same)
      chosen found false h rest = rest found h

      entry :
          (r : Result AuthConfig)
          → ◌≡◌ {A = Result AuthConfig}
              (elim r [
                | err e ↦ err (wrap "read credentials" e)
                | ok found ↦
                    let cfg = record found { server_address = [] } in
                    let rest = find_config D cf keys cfg in if is_filled cfg then ok cfg else rest
              ])
              (ok c)
          → Rest
          → c.server_address ≡ []
      entry (err e) h rest = cc
      entry (ok found) h rest = chosen found (is_filled (unaddressed found)) h rest

  -- Where `Resolve` answers, the docker config file stands on the disk and could be parsed, and the
  -- answer is the entry of the target if it has anything in it besides a server's address, else the
  -- entry of the registry under the same condition, else the anonymous one.
  pub resolve_target-Answers :
      (path target registry : Bytes) (w v : World) (auth : Authenticator)
      → resolve_target D path target registry w ≡ (ok auth, v)
      → (content : Bytes) × (cf : D.File) × Holds w.disk path content
        × (D.load_from_reader content ≡ ok cf)
        × Answers cf (target ∷ registry ∷ []) auth
  unfolding resolve_target is_filled
  resolve_target-Answers path target registry w v auth h =
      subst (Yields Goal) h (opened (read_file path w) refl)
    where
      keys : List Bytes
      keys = target ∷ registry ∷ []

      Goal : Authenticator → Type 0
      Goal auth =
          (content : Bytes) × (cf : D.File) × Holds w.disk path content
          × (D.load_from_reader content ≡ ok cf)
          × Answers cf keys auth

      found :
          (content : Bytes) (cf : D.File) (u : World) (r : Result AuthConfig)
          → Holds w.disk path content
          → D.load_from_reader content ≡ ok cf
          → find_config D cf keys empty_config ≡ r
          → Yields Goal ((lift r >>= λ cfg. pure (authenticator D cfg)) u)
      found content cf u (err e) held loaded q = tt
      found content cf u (ok c) held loaded q = (
        content,
        cf,
        held,
        loaded,
        authenticator-Answers cf keys c (find_config-Found cf keys empty_config c refl q)
            (find_config-unaddressed cf keys empty_config c refl q),
      )

      loaded :
          (content : Bytes) (u : World) (r : Result D.File)
          → Holds w.disk path content
          → D.load_from_reader content ≡ r
          → Yields Goal (
              (do
                cf ← lift (wrap_result "parse docker config" r)
                cfg ← lift (find_config D cf keys empty_config)
                pure (authenticator D cfg))
                u)
      loaded content u (err e) held q = tt
      loaded content u (ok cf) held q =
          found content cf u (find_config D cf keys empty_config) held q refl

      opened :
          (o : Result Bytes × World)
          → read_file path w ≡ o
          → Yields Goal (
              proceed
                (λ content. do
                  cf ← lift (wrap_result "parse docker config" (D.load_from_reader content))
                  cfg ← lift (find_config D cf keys empty_config)
                  pure (authenticator D cfg))
                (elim o.0 [ ok a ↦ ok a | err e ↦ err (wrap "open docker config" e) ], o.1))
      opened (err e, u) q = tt
      opened (ok content, u) q =
          loaded content u (D.load_from_reader content)
            (read_file-Holds path w (ap (λ (o : Result Bytes × World). o.0) q)) refl
