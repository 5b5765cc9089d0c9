-- ===== src/Unpack/Blobs.antt =====
-- Where the blob of a layer is read from.
use unpacker.Base.{◌≡◌, ◌⊎◌, inl, inr, refl, subst, arith, Bool, true, false}
use unpacker.Base.{List, [], ◌∷◌, ◌++◌, Option, none, some, if◌then◌else◌}
use unpacker.Base.Text.{Bytes, has_prefix}
use unpacker.Path.{slash, clean}
use unpacker.Path.Confine.{EndsInName, IsBelow, has_prefix-IsBelow}
use unpacker.Errors.{plain, Result, ok, err}
use unpacker.System.{World, M, proceed, ◌>>=◌, pure, fail, stat_ok}
use unpacker.Unpack.Layers.{Layer, cut_colon, candidates, find_candidate, blob_path}

-- A prefix test at texts that both have a slash put behind them.
has_prefix-slash :
    (s t : Bytes)
    → has_prefix (s ++ (slash ∷ [])) (t ++ (slash ∷ [])) ≡ true
    → (s ≡ t) ⊎ (has_prefix s (t ++ (slash ∷ [])) ≡ true)
unfolding has_prefix
has_prefix-slash [] [] h = inl refl
has_prefix-slash (a ∷ s) [] h = inr h
has_prefix-slash [] (b ∷ []) h = ground arith
has_prefix-slash [] (b ∷ c ∷ t) h = ground arith
has_prefix-slash (a ∷ s) (b ∷ t) h = ground (arith, has_prefix-slash s t)

module _ (tmp : Bytes) (named : EndsInName tmp) where
  -- The directory itself or a path below it.
  abbrev IsInside : Bytes → Type 0
  IsInside p = (clean p ≡ clean tmp) ⊎ IsBelow tmp (clean p)

  abbrev Inside : Result Bytes × World → Type 0
  Inside (ok p, w) = IsInside p
  Inside (err e, w) = Unit

  guarded :
      (p : Bytes)
      → has_prefix (clean p ++ (slash ∷ [])) (clean tmp ++ (slash ∷ [])) ≡ true
      → IsInside p
  guarded p h = elim (has_prefix-slash (clean p) (clean tmp) h) [
    | inl e ↦ inl e
    | inr q ↦ inr (has_prefix-IsBelow tmp p named q)
  ]

  find_candidate-Inside : (cs : List Bytes) (w : World) → Inside (find_candidate tmp cs w)
  unfolding find_candidate
  find_candidate-Inside [] w = tt
  find_candidate-Inside (c ∷ cs) w =
      go (has_prefix (clean c ++ (slash ∷ [])) (clean tmp ++ (slash ∷ []))) refl
        (find_candidate-Inside cs)
    where
      found :
          (b : Bool) (u : World)
          → IsInside c
          → ((u : World) → Inside (find_candidate tmp cs u))
          → Inside ((if b then pure c else find_candidate tmp cs) u)
      found true u h rest = h
      found false u h rest = rest u

      looked :
          (o : Result Bool × World)
          → IsInside c
          → ((u : World) → Inside (find_candidate tmp cs u))
          → Inside (proceed (λ there. if there then pure c else find_candidate tmp cs) o)
      looked (ok b, u) h rest = found b u h rest
      looked (err e, u) h rest = tt

      go :
          (b : Bool)
          → has_prefix (clean c ++ (slash ∷ [])) (clean tmp ++ (slash ∷ [])) ≡ b
          → ((u : World) → Inside (find_candidate tmp cs u))
          → Inside (
              (if b
                  then (stat_ok c >>= λ there. if there then pure c else find_candidate tmp cs)
                  else fail (plain "layer resolves outside tmp dir"))
                w)
      go true e rest = looked (stat_ok c w) (guarded c e) rest
      go false e rest = tt

  blob_path-Inside : (l : Layer) (w : World) → Inside (blob_path tmp l w)
  unfolding blob_path
  blob_path-Inside l w = go (cut_colon l.digest [])
    where
      go :
          (o : Option (Bytes × Bytes))
          → Inside (
              (elim o as (λ _. M Bytes) [
                | none ↦ fail (plain "invalid digest format")
                | some (algo, hex) ↦ find_candidate tmp (candidates tmp l algo hex)
              ])
                w)
      go none = tt
      go (some (algo, hex)) = find_candidate-Inside (candidates tmp l algo hex) w

  -- Whatever a layer's title and digest say, the blob that is found for it lies in the directory of
  -- the pull, where that one's path ends in a name: its cleaned path is that directory or below it.
  pub blob_path-IsBelow :
      (l : Layer) (w v : World) (p : Bytes)
      → blob_path tmp l w ≡ (ok p, v)
      → (clean p ≡ clean tmp) ⊎ IsBelow tmp (clean p)
  blob_path-IsBelow l w v p h = subst Inside h (blob_path-Inside l w)
