-- ===== src/Limits.antt =====
-- internal/unpacker/unpack.go: the limits on what one artifact may expand to.
use unpacker.Base.{◌≡◌, refl, arith, true, ◌^◌, ◌*◌, if◌then◌else◌}
use unpacker.Base.Word.{I64, lt_i64}

abbrev pub default_max_total_bytes : I64
default_max_total_bytes = 2 ^ 30

abbrev pub default_max_file_bytes : I64
default_max_file_bytes = 512 * 2 ^ 20

abbrev pub default_max_entries : I64
default_max_entries = 100_000

abbrev pub default_max_referrers : I64
default_max_referrers = 100

pub record Limits : Type 0 where
  pub max_total_bytes : I64
  pub max_file_bytes : I64
  pub max_entries : I64

-- `if x <= 0 { x = d }`
unfoldable pub or_default : I64 → I64 → I64
unfolding lt_i64
or_default x d = if lt_i64 0 x then x else d

unfoldable pub with_defaults : Limits → Limits
unfolding or_default
with_defaults l = record {
  max_total_bytes = or_default l.max_total_bytes default_max_total_bytes;
  max_file_bytes = or_default l.max_file_bytes default_max_file_bytes;
  max_entries = or_default l.max_entries default_max_entries;
}

-- `Config.maxReferrers`, at the configured value.
unfoldable pub max_referrers : I64 → I64
unfolding or_default
max_referrers configured = or_default configured default_max_referrers

-- Resolved limits stay as they are.
or_default_idem : (x d : I64) → lt_i64 0 d ≡ true → or_default (or_default x d) d ≡ or_default x d
unfolding or_default
or_default_idem x d h = ground arith

pub with_defaults_idem : (l : Limits) → with_defaults (with_defaults l) ≡ with_defaults l
unfolding with_defaults lt_i64
with_defaults_idem l =
    let total = or_default_idem l.max_total_bytes default_max_total_bytes refl in
    let file = or_default_idem l.max_file_bytes default_max_file_bytes refl in
    let entries = or_default_idem l.max_entries default_max_entries refl in
    ground (arith, total, file, entries)
