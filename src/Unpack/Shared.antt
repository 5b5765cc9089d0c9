-- ===== src/Unpack/Shared.antt =====
-- The layers of one artifact share one byte budget and one directory.
use unpacker.Base.{◌+◌, ◌-◌, ◌≤◌, ◌≡◌, refl, ap, ◌∙◌, arith, ◌++◌}
use unpacker.Base.{Bool, true, false, List, [], ◌∷◌, Option, none, some, if◌then◌else◌, length, ltb}
use unpacker.Base.Text.{Bytes, has_prefix}
use unpacker.Base.Word.{I64, sub_i64, sub_i64-nat}
use unpacker.Path.{slash, clean}
use unpacker.Errors.{plain, wrap, Result, ok, err}
use unpacker.System.{
  World, M, proceed, ◌>>=◌, ◌>>◌, pure, fail, wrapping, say, mkdir_all, stat_ok, call,
  extracted_layers,
}
use unpacker.System.Keeps.{Keeps, >>=-Keeps, if-Keeps}
use unpacker.System.Quiet.{Quiet, Quiet-IsPreorder}
use unpacker.Limits.{Limits}
use unpacker.Compression.{Readers}
use unpacker.Extract.{extract_resolved}
use unpacker.Extract.Budget.{IsResolved}
use unpacker.Extract.Bounded.{Finished, extract_resolved-Bounded, WithinLimit}
use unpacker.Unpack.Layers.{
  Layer, cut_colon, candidates, find_candidate, blob_path, extract_each, extract_layers,
}

-- Looking for a blob copies nothing.
find_candidate-Quiet : (tmp : Bytes) (cs : List Bytes) → Keeps Quiet (find_candidate tmp cs)
unfolding find_candidate
find_candidate-Quiet tmp [] = λ w. refl
find_candidate-Quiet tmp (c ∷ cs) =
    if-Keeps Quiet Quiet-IsPreorder Bytes
      (has_prefix (clean c ++ (slash ∷ [])) (clean tmp ++ (slash ∷ [])))
      (stat_ok c >>= λ there. if there then pure c else find_candidate tmp cs)
      (fail (plain "layer resolves outside tmp dir"))
      (>>=-Keeps Quiet Quiet-IsPreorder Bool Bytes (stat_ok c)
        (λ there. if there then pure c else find_candidate tmp cs)
        (λ w. unfold stat_ok call in refl)
        (λ there.
          if-Keeps Quiet Quiet-IsPreorder Bytes there (pure c) (find_candidate tmp cs) (λ w. refl)
            (find_candidate-Quiet tmp cs)))
      (λ w. refl)

blob_path-Quiet : (tmp : Bytes) (l : Layer) → Keeps Quiet (blob_path tmp l)
unfolding blob_path
blob_path-Quiet tmp l = go (cut_colon l.digest [])
  where
    go :
        (o : Option (Bytes × Bytes))
        → Keeps Quiet {A = Bytes} (elim o [
          | none ↦ fail (plain "invalid digest format")
          | some (algo, hex) ↦ find_candidate tmp (candidates tmp l algo hex)
        ])
    go none = λ w. refl
    go (some (algo, hex)) = find_candidate-Quiet tmp (candidates tmp l algo hex)

module _ (R : Readers) (tmp image : Bytes) where
  -- What the layers copy, all together, on a budget that is what is left.
  extract_each-WithinLimit :
      (layers : List Layer) (lim : Limits) (w : World)
      → IsResolved lim
      → WithinLimit lim.max_total_bytes w (extract_each R tmp image layers lim w)
  unfolding extract_each
  extract_each-WithinLimit [] lim w v = omega arith
  extract_each-WithinLimit (l ∷ layers) lim w v =
      found (blob_path tmp l w) (blob_path-Quiet tmp l w)
        (λ t u fits. extract_each-WithinLimit layers (left t) u (left-IsResolved t fits))
    where
      left : I64 → Limits
      left t = record lim { max_total_bytes = sub_i64 lim.max_total_bytes t }

      less :
          (t : I64)
          → t ≤ lim.max_total_bytes
          → sub_i64 lim.max_total_bytes t ≡ lim.max_total_bytes - t
      less t fits = sub_i64-nat lim.max_total_bytes t (omega (arith, v.total_room)) fits

      left-IsResolved : (t : I64) → t ≤ lim.max_total_bytes → IsResolved (left t)
      left-IsResolved t fits = record {
        total_room = omega (arith, less t fits, v.total_room);
        file_room = v.file_room;
        entries_room = v.entries_room;
      }

      goal : Result (Unit {0}) × World → Type 0
      goal = WithinLimit lim.max_total_bytes w

      next : I64 → M (Unit {0})
      next t = extract_each R tmp image layers (left t)

      Rest : Type 0
      Rest =
          (t : I64) (u : World)
          → t ≤ lim.max_total_bytes
          → WithinLimit (left t).max_total_bytes u (next t u)

      onward :
          (t : I64) (u : World) (o : Result (Unit {0}) × World)
          → t ≤ lim.max_total_bytes
          → u.copied ≡ w.copied + t
          → WithinLimit (sub_i64 lim.max_total_bytes t) u o
          → goal o
      onward t u (ok x, z) fits e h = omega (arith, less t fits, e, h)
      onward t u (err x, z) fits e h = omega (arith, less t fits, e, h)

      extracted :
          (u : World) (o : Result I64 × World)
          → u.copied ≡ w.copied
          → Finished R image lim v u o
          → Rest
          → goal (proceed next o)
      extracted u (ok t, z) e (h, k) rest =
          onward t z (next t z) h (k ∙ ap (λ c. c + t) e) (rest t z h)
      extracted u (err x, z) e h rest = omega (arith, e, h)

      wrapped :
          (u : World) (o : Result I64 × World)
          → Finished R image lim v u o
          → Finished R image lim v u
              (elim o.0 [ ok a ↦ ok a | err e ↦ err (wrap "extract layer" e) ], o.1)
      wrapped u (ok t, z) h = h
      wrapped u (err x, z) h = h

      found :
          (o : Result Bytes × World)
          → o.1.copied ≡ w.copied
          → Rest
          → goal (
              proceed
                (λ src. wrapping "extract layer" (extract_resolved R src image lim) >>= next)
                o)
      found (ok src, u) e rest =
          extracted u (wrapping "extract layer" (extract_resolved R src image lim) u) e
            (wrapped u (extract_resolved R src image lim u)
              (extract_resolved-Bounded R image lim v u src))
            rest
      found (err x, u) e rest = omega (arith, e)

  -- The layers of an artifact copy at most the byte limit all together when they are extracted, and
  -- at most one byte more when extracting them fails, however many layers there are; this for limits
  -- below the largest int64.
  pub extract_layers-WithinLimit :
      (layers : List Layer) (lim : Limits) (w : World)
      → IsResolved lim
      → WithinLimit lim.max_total_bytes w (extract_layers R tmp image layers lim w)
  unfolding extract_layers mkdir_all call
  extract_layers-WithinLimit layers lim w v =
      made (wrapping "create image dir" (mkdir_all image 0o755) w) refl
    where
      goal : Result (Unit {0}) × World → Type 0
      goal = WithinLimit lim.max_total_bytes w

      told :
          (b : Bool) (u : World)
          → u.copied ≤ w.copied + lim.max_total_bytes
          → goal ((if b then say (extracted_layers (length layers)) else pure tt) u)
      told true u h = h
      told false u h = h

      done :
          (u : World) (o : Result (Unit {0}) × World)
          → u.copied ≡ w.copied
          → WithinLimit lim.max_total_bytes u o
          → goal (
              proceed
                (λ _.
                  if ltb 1 (length layers) then say (extracted_layers (length layers)) else pure tt)
                o)
      done u (ok x, z) e h = told (ltb 1 (length layers)) z (omega (arith, e, h))
      done u (err x, z) e h = omega (arith, e, h)

      made :
          (o : Result (Unit {0}) × World)
          → o.1.copied ≡ w.copied
          → goal (
              proceed
                (λ _.
                  extract_each R tmp image layers lim
                  >> (if ltb 1 (length layers)
                      then say (extracted_layers (length layers))
                      else pure tt))
                o)
      made (ok x, u) e =
          done u (extract_each R tmp image layers lim u) e (extract_each-WithinLimit layers lim u v)
      made (err x, u) e = omega (arith, e)
