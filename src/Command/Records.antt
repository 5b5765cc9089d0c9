-- ===== src/Command/Records.antt =====
-- cmd/unpacker/main.go: the records that a run writes between its pull and its unpacking.
use unpacker.Base.{◌≡◌, refl, sym, ap, ◌∙◌, inl, inr, arith, Bool, false, ◌||◌, [], append-nil}
use unpacker.Base.Text.{Bytes, codes, bytes_eq, has_prefix}
use unpacker.Path.Siblings.{within-siblings, bytes_eq-siblings}
use unpacker.System.{World, find, within, ancestors}
use unpacker.System.Ancestors.{OneOf}
use unpacker.System.Settled.{Settled, Made}
use unpacker.System.Reads.{Holds}
use unpacker.Config.{Config}
use unpacker.Report.{result_path}
use unpacker.Pull.Settled.{manifest_path}
use unpacker.Referrers.Settled.{referrers_dir}

-- What the stages between the pull and the unpacking may touch.
abbrev pub in_records : (Bytes → Bool) → Config → Bytes → Bool
in_records cache cfg q = within (referrers_dir cfg) q || (bytes_eq (result_path cfg) q || cache q)

abbrev pub OnWay : Config → Bytes → Type 0
OnWay cfg q = OneOf q (ancestors (referrers_dir cfg))

abbrev pub Between : (Bytes → Bool) → Config → World → World → Type 0
Between cache cfg = Settled (in_records cache cfg) (OnWay cfg)

-- manifest.json does not lie there.
manifest-in_records :
    (cache : Bytes → Bool) (cfg : Config)
    → cache (manifest_path cfg) ≡ false
    → in_records cache cfg (manifest_path cfg) ≡ false
unfolding within bytes_eq has_prefix
manifest-in_records cache cfg out =
    let below : within (referrers_dir cfg) (manifest_path cfg) ≡ false =
      ap (within (referrers_dir cfg)) (sym (append-nil (manifest_path cfg)))
      ∙ within-siblings cfg.output_dir (codes "referrers") (codes "manifest.json") []
          ((refl, refl, refl), ground arith) ((refl, refl, refl), ground arith)
      ∙ refl in
    let apart : bytes_eq (result_path cfg) (manifest_path cfg) ≡ false =
      bytes_eq-siblings cfg.output_dir (codes "result.json") (codes "manifest.json")
        ((refl, refl, refl), ground arith) ((refl, refl, refl), ground arith)
      ∙ refl in
    rw (below, apart) out

pub Between-Holds :
    (cache : Bytes → Bool) (cfg : Config) (w v : World) (s : Bytes)
    → cache (manifest_path cfg) ≡ false
    → Between cache cfg w v
    → Holds w.disk (manifest_path cfg) s
    → Holds v.disk (manifest_path cfg) s
Between-Holds cache cfg w v s out kept (m, found) =
    same (kept (manifest_path cfg) (manifest-in_records cache cfg out))
  where
    same :
        Made
          (in_records cache cfg)
          (OnWay cfg)
          (manifest_path cfg)
          (find (manifest_path cfg) w.disk)
          (find (manifest_path cfg) v.disk)
        → Holds v.disk (manifest_path cfg) s
    same (inl e) = (m, e ∙ found)
    same (inr (_, absent, _, _)) = absurd (ground (arith, sym absent ∙ found))
