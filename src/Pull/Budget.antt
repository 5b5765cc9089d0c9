-- ===== src/Pull/Budget.antt =====
-- internal/unpacker/pull.go: `downloadBudget`, which bounds a download before its bytes are fetched.
use unpacker.Base.{ℕ, ◌+◌, ◌-◌, ◌≤◌, ◌<◌, ◌≡◌, refl, ap, sym, ◌∙◌, ◌↔◌, arith}
use unpacker.Base.{List, [], ◌∷◌, if◌then◌else◌, All, Option, none, some}
use unpacker.Base.Text.{Bytes}
use unpacker.Base.Word.{I64, IsNat, modulus, sub_i64, lt_i64}
use unpacker.Errors.{limit, Result, ok, err}
use unpacker.Limits.{
  Limits, or_default, with_defaults, default_max_file_bytes, default_max_total_bytes,
}

-- `ocispec.Descriptor`, by the fields that the program sets or reads.
pub record Descriptor : Type 0 where
  pub media_type : Bytes
  pub digest : Bytes
  pub size : I64
  pub artifact_type : Bytes
  pub annotations : List (Bytes × Bytes)

pub record DownloadBudget : Type 0 where
  pub max_file : I64
  pub remaining : I64

unfoldable pub new_download_budget : Limits → DownloadBudget
unfolding with_defaults
new_download_budget lim =
    let l = with_defaults lim in
    record { max_file = l.max_file_bytes; remaining = l.max_total_bytes }

-- `charge`, at a budget that is not nil: what remains, or an error.
unfoldable pub charge : Descriptor → DownloadBudget → Result DownloadBudget
charge desc b =
    if lt_i64 b.max_file desc.size
    then err (limit "blob is over the byte limit for a single file (--max-file-bytes)")
    else if lt_i64 b.remaining desc.size
    then err (limit "blob is past the byte total limit for this pull (--max-total-bytes)")
    else ok (record b { remaining = sub_i64 b.remaining desc.size })

-- `charge` at a receiver that may be nil.
unfoldable pub charge_any : Descriptor → Option DownloadBudget → Result (Option DownloadBudget)
unfolding charge
charge_any desc none = ok none
charge_any desc (some b) = elim (charge desc b) [ ok c ↦ ok (some c) | err e ↦ err e ]

-- The loop of `pullWithCrane` over the config and the layers of a manifest.
unfoldable pub charge_all : List Descriptor → DownloadBudget → Result DownloadBudget
unfolding charge
charge_all [] b = ok b
charge_all (desc ∷ descs) b = elim (charge desc b) [ ok c ↦ charge_all descs c | err e ↦ err e ]

abbrev pub sum_sizes : List Descriptor → ℕ
sum_sizes [] = 0
sum_sizes (desc ∷ descs) = desc.size + sum_sizes descs

-- A budget that is not negative: as `newDownloadBudget` makes it.
pub record IsBudget (b : DownloadBudget) : Type 0 where
  pub file_nat : IsNat b.max_file
  pub remaining_nat : IsNat b.remaining

abbrev pub Fits : DownloadBudget → List Descriptor → Type 0
Fits b descs =
    All (λ (desc : Descriptor). desc.size ≤ b.max_file) descs × (sum_sizes descs ≤ b.remaining)

abbrev pub less : Descriptor → DownloadBudget → DownloadBudget
less desc b = record b { remaining = b.remaining - desc.size }

pub charge_fits :
    (desc : Descriptor) (b : DownloadBudget)
    → IsBudget b
    → IsNat desc.size
    → desc.size ≤ b.max_file
    → desc.size ≤ b.remaining
    → charge desc b ≡ ok (less desc b)
unfolding charge lt_i64 sub_i64
charge_fits desc b i h f r = ground (arith, i.file_nat, i.remaining_nat)

pub charge_refuses :
    (desc : Descriptor) (b c : DownloadBudget)
    → IsBudget b
    → IsNat desc.size
    → charge desc b ≡ ok c
    → (desc.size ≤ b.max_file) × (desc.size ≤ b.remaining)
unfolding charge lt_i64 sub_i64
charge_refuses desc b c i h e = ground (arith, i.file_nat, i.remaining_nat)

pub less-IsBudget : (desc : Descriptor) (b : DownloadBudget) → IsBudget b → IsBudget (less desc b)
less-IsBudget desc b i = record {
  file_nat = i.file_nat;
  remaining_nat = omega (arith, i.remaining_nat);
}

abbrev pub AreNat : List Descriptor → Type 0
AreNat = All (λ (desc : Descriptor). IsNat desc.size)

charge_all-Fits :
    (descs : List Descriptor) (b : DownloadBudget)
    → IsBudget b
    → AreNat descs
    → Fits b descs
    → (c : DownloadBudget) × (charge_all descs b ≡ ok c)
unfolding charge_all
charge_all-Fits [] b i h f = (b, refl)
charge_all-Fits (desc ∷ descs) b i (h, hs) ((f, fs), r) =
    let (c, e) =
      charge_all-Fits descs (less desc b) (less-IsBudget desc b i) hs (fs, omega (arith, r)) in
    (
      c,
      ap (λ r. elim r [ ok c ↦ charge_all descs c | err e ↦ err e ])
            (charge_fits desc b i h f (omega (arith, r)))
          ∙ e,
    )

-- An accepted list: its first blob fits, and the rest is accepted within what that leaves.
charge_rest :
    (desc : Descriptor) (descs : List Descriptor) (b c : DownloadBudget)
    → IsBudget b
    → IsNat desc.size
    → charge_all (desc ∷ descs) b ≡ ok c
    → ((desc.size ≤ b.max_file) × (desc.size ≤ b.remaining))
      × (charge_all descs (less desc b) ≡ ok c)
unfolding charge_all
charge_rest desc descs b c i h e = step (charge desc b) refl e
  where
    step :
        (r : Result DownloadBudget)
        → charge desc b ≡ r
        → elim r [ ok c ↦ charge_all descs c | err e ↦ err e ] ≡ ok c
        → ((desc.size ≤ b.max_file) × (desc.size ≤ b.remaining))
          × (charge_all descs (less desc b) ≡ ok c)
    step (err x) q e = cc
    step (ok d) q e =
        let fits = charge_refuses desc b d i h q in
        let same : ok (less desc b) ≡ ok d = sym (charge_fits desc b i h fits.0 fits.1) ∙ q in
        (fits, ap (λ r. elim r [ ok c ↦ charge_all descs c | err e ↦ err e ]) same ∙ e)

charge_all_refuses :
    (descs : List Descriptor) (b c : DownloadBudget)
    → IsBudget b
    → AreNat descs
    → charge_all descs b ≡ ok c
    → Fits b descs
unfolding charge_all
charge_all_refuses [] b c i h e = (tt, omega arith)
charge_all_refuses (desc ∷ descs) b c i (h, hs) e =
    let (fits, rest) = charge_rest desc descs b c i h e in
    let (fs, rs) = charge_all_refuses descs (less desc b) c (less-IsBudget desc b i) hs rest in
    ((fits.0, fs), omega (arith, fits.1, rs))

-- The limits are bit patterns of 64 bits.
pub record AreWords (lim : Limits) : Type 0 where
  pub total_word : lim.max_total_bytes < modulus
  pub file_word : lim.max_file_bytes < modulus

or_default-IsNat : (x d : I64) → x < modulus → IsNat d → IsNat (or_default x d)
unfolding or_default lt_i64
or_default-IsNat x d h k = ground arith

pub new_download_budget-IsBudget :
    (lim : Limits) → AreWords lim → IsBudget (new_download_budget lim)
unfolding new_download_budget with_defaults
new_download_budget-IsBudget lim v = record {
  file_nat = or_default-IsNat lim.max_file_bytes default_max_file_bytes v.file_word (omega arith);
  remaining_nat =
      or_default-IsNat lim.max_total_bytes default_max_total_bytes v.total_word (omega arith);
}

-- For sizes that are not negative, and whatever limits are configured, the blobs of an image are
-- accepted exactly where each is within the resolved limit for a file and all of them together are
-- within the resolved limit for the pull.
pub charge_all_iff :
    (lim : Limits) (descs : List Descriptor)
    → AreWords lim
    → All (λ (desc : Descriptor). IsNat desc.size) descs
    → ((c : DownloadBudget) × (charge_all descs (new_download_budget lim) ≡ ok c)) ↔ (
        All (λ (desc : Descriptor). desc.size ≤ (with_defaults lim).max_file_bytes) descs
        × (sum_sizes descs ≤ (with_defaults lim).max_total_bytes))
unfolding new_download_budget
charge_all_iff lim descs v h =
    let b = new_download_budget lim in
    let i = new_download_budget-IsBudget lim v in
    (λ (c, e). charge_all_refuses descs b c i h e, charge_all-Fits descs b i h)
