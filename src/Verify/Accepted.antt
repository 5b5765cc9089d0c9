-- ===== src/Verify/Accepted.antt =====
-- internal/unpacker/verify.go: what the loop of Verify has found where it gives no error.

use mathlib.Core.List.{Memᴰ}
use unpacker.Base.{◌≡◌, refl, sym, ap, subst, ◌∙◌}
use unpacker.Base.{true, List, [], ◌∷◌, ◌++◌, Option, none, some}
use unpacker.Base.Text.{Bytes}
use unpacker.Errors.{Error, wrap, Result, ok, err}
use unpacker.System.{World, M, read_file}
use unpacker.System.Disk.{Disk}
use unpacker.System.Reads.{Holds, read_file-Holds, read_file-disk}
use unpacker.Report.{Verification}
use unpacker.Verify.Trust.{Sigstore}
use unpacker.Verify.Bundles.{
  Engine, SignatureVerifier, check_bundles, on_verified, on_parsed, on_read,
}

module _ (S : Sigstore) (E : Engine S) where
  -- A file on the disk is a bundle that the verifier accepts under its policy.
  abbrev pub Accepts : SignatureVerifier S E → Disk → Bytes → Type 0
  Accepts sv d path =
      (raw : Bytes) × (b : S.Bundle) × (types : List Bytes) × Holds d path raw
      × (S.parse_bundle raw ≡ ok b)
      × (E.verify sv.verifier sv.policy b ≡ ok types)

  abbrev pub AcceptsOne : SignatureVerifier S E → Disk → List Bytes → Type 0
  AcceptsOne sv d paths = (path : Bytes) × Memᴰ path paths × Accepts sv d path

  abbrev pub Sound :
      SignatureVerifier S E
      → List Bytes
      → Disk
      → Result (Verification × Option Error) × World
      → Type 0
  Sound sv paths d (ok (rec, none), v) = (rec.verified ≡ true) × AcceptsOne sv d paths
  Sound sv paths d (ok (rec, some e), v) = Unit
  Sound sv paths d (err e, v) = Unit

  later :
      (sv : SignatureVerifier S E) (path : Bytes) (paths : List Bytes) (d : Disk)
      (o : Result (Verification × Option Error) × World)
      → Sound sv paths d o
      → Sound sv (path ∷ paths) d o
  later sv path paths d (ok (rec, none), v) (h, (p, m, a)) = (h, (p, Memᴰ.tail m, a))
  later sv path paths d (ok (rec, some e), v) h = tt
  later sv path paths d (err e, v) h = tt

  pub check_bundles-Sound :
      (sv : SignatureVerifier S E) (paths : List Bytes) (rec : Verification) (last : Option Error)
      (w : World)
      → Sound sv paths w.disk (check_bundles S E sv paths rec last w)
  unfolding check_bundles
  check_bundles-Sound sv [] rec last w = tt
  check_bundles-Sound sv (path ∷ paths) rec last w =
      read (read_file path w) refl (check_bundles-Sound sv paths)
    where
      Rest : Type 0
      Rest =
          (rec : Verification) (last : Option Error) (u : World)
          → Sound sv paths u.disk (check_bundles S E sv paths rec last u)

      goal : Result (Verification × Option Error) × World → Type 0
      goal = Sound sv (path ∷ paths) w.disk

      on :
          (u : World) (rec : Verification) (last : Option Error)
          → u.disk ≡ w.disk
          → Rest
          → goal (check_bundles S E sv paths rec last u)
      on u rec last same rest =
          let o = check_bundles S E sv paths rec last u in
          later sv path paths w.disk o (subst (λ d. Sound sv paths d o) same (rest rec last u))

      next : Verification → Option Error → M (Verification × Option Error)
      next = check_bundles S E sv paths

      judged :
          (r : Result (List Bytes)) (raw : Bytes) (b : S.Bundle) (seen : Verification) (u : World)
          → E.verify sv.verifier sv.policy b ≡ r
          → S.parse_bundle raw ≡ ok b
          → Holds w.disk path raw
          → u.disk ≡ w.disk
          → Rest
          → goal (on_verified S E sv seen next r u)
      judged (ok types) raw b seen u e p h same rest =
          (refl, (path, Memᴰ.head refl, (raw, b, types, h, p, e)))
      judged (err x) raw b seen u e p h same rest = on u seen (some (wrap "bundle" x)) same rest

      parsed :
          (r : Result S.Bundle) (raw : Bytes) (u : World)
          → S.parse_bundle raw ≡ r
          → Holds w.disk path raw
          → u.disk ≡ w.disk
          → Rest
          → goal (on_parsed S E sv rec next raw r u)
      parsed (err x) raw u p h same rest =
          on u rec (some (wrap "parse signature bundle" x)) same rest
      parsed (ok b) raw u p h same rest =
          judged (E.verify sv.verifier sv.policy b) raw b
            (record rec { bundles = rec.bundles ++ (S.from_bytes raw ∷ []) }) u refl p h same rest

      read :
          (o : Result Bytes × World)
          → read_file path w ≡ o
          → Rest
          → goal (on_read S E sv rec next o.0 o.1)
      read (err x, u) q rest = tt
      read (ok raw, u) q rest =
          parsed (S.parse_bundle raw) raw u refl
            (read_file-Holds path w (ap (λ (o : Result Bytes × World). o.0) q))
            (sym (ap (λ (o : Result Bytes × World). o.1.disk) q) ∙ read_file-disk path w) rest
