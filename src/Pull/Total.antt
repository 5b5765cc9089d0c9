-- ===== src/Pull/Total.antt =====
-- How many bytes the downloads of an artifact write.
use unpacker.Base.{
  ℕ, ◌+◌, ◌-◌, ◌≤◌, ◌≡◌, refl, sym, ap, subst, ◌∙◌, arith, List, [], ◌∷◌, Option, none, some,
  length, length-take,
}
use unpacker.Base.Text.{Bytes}
use unpacker.Path.{join}
use unpacker.Errors.{Result, ok, err, wrap_result, first_error}
use unpacker.System.{
  World, M, proceed, ◌>>=◌, ◌>>◌, pure, attempt, wrapping, lift, call, next_fault, before_fault,
  remove, write, flush, open_file,
}
use unpacker.Base.Word.{IsNat}
use unpacker.System.Yields.{Yields, >>=-Yields}
use unpacker.Limits.{Limits, with_defaults}
use unpacker.Pull.Budget.{
  Descriptor, DownloadBudget, charge, charge_any, new_download_budget, IsBudget, AreNat, AreWords,
  less, charge_fits, charge_refuses, less-IsBudget, new_download_budget-IsBudget,
}
use unpacker.Pull.Blob.{Fetcher, copy_verified, settle, store_blob, fetch_blob_to_file}
use unpacker.Pull.Credentials.{Repository}
use unpacker.Pull.Registry.{Registry}
use unpacker.Pull.Oras.{blob_name, layer_desc, pull_layers}

-- At most so many bytes are copied.
abbrev pub Copies : {A : Type 0} → ℕ → World → Result A × World → Type 0
Copies n w o = o.1.copied ≤ w.copied + n

pub >>=-Copies :
    {A B : Type 0} (m : M A) (f : A → M B) (k n : ℕ) (w : World)
    → Copies k w (m w)
    → ((a : A) (u : World) → Copies n u (f a u))
    → Copies (k + n) w ((m >>= f) w)
>>=-Copies {A} {B} m f k n w first next = go (m w) first
  where
    go : (o : Result A × World) → Copies k w o → Copies (k + n) w (proceed f o)
    go (ok a, u) h = omega (arith, h, next a u)
    go (err e, u) h = omega (arith, h)

write-Copies : (p s : Bytes) (w : World) → Copies (length s) w (write p s w)
unfolding write
write-Copies p s w = go (next_fault w.faults).0
  where
    go : (f : Option ℕ) → w.copied + length (before_fault f s) ≤ w.copied + length s
    go none = omega arith
    go (some k) = omega (arith, length-take k s)

open_file-Copies :
    (p : Bytes) (w : World) → Copies 0 w (wrapping "create blob file" (open_file p 0o666) w)
unfolding open_file call
open_file-Copies p w = omega arith

flush-Copies : (w : World) → Copies 0 w (attempt flush w)
unfolding flush call
flush-Copies w = omega arith

-- The verifying reader gives no more bytes than the descriptor says.
module _ {Body : Type 0} (F : Fetcher Body)
    (is_bounded : (desc : Descriptor) (body : Body) → length (F.passed desc body) ≤ desc.size) where
  settle-Copies :
      (dest : Bytes) (r : Result (Unit {0})) (w : World) → Copies 0 w (settle F dest r w)
  unfolding remove call
  settle-Copies dest (ok u) w = omega arith
  settle-Copies dest (err e) w = omega arith

  lift-Copies : {A : Type 0} (r : Result A) (w : World) → Copies 0 w (lift r w)
  lift-Copies r w = omega arith

  copy_verified-Copies :
      (desc : Descriptor) (dest : Bytes) (body : Body) (w : World)
      → Copies desc.size w (copy_verified F desc dest body w)
  unfolding copy_verified
  copy_verified-Copies desc dest body w =
      let all =
        >>=-Copies (write dest (F.passed desc body))
          (λ _. lift (F.read_error desc body) >> lift (F.verify desc body))
          (length (F.passed desc body)) 0 w (write-Copies dest (F.passed desc body) w)
          (λ _ u.
            >>=-Copies (lift (F.read_error desc body)) (λ _. lift (F.verify desc body)) 0 0 u
              (lift-Copies (F.read_error desc body) u)
              (λ _ v. lift-Copies (F.verify desc body) v)) in
      omega (arith, all, is_bounded desc body)

  store_blob-Copies :
      (desc : Descriptor) (dest : Bytes) (body : Body) (w : World)
      → Copies desc.size w (store_blob F desc dest body w)
  unfolding store_blob
  store_blob-Copies desc dest body w =
      let all =
        >>=-Copies (attempt (copy_verified F desc dest body))
          (λ copied. attempt flush >>= λ closed. settle F dest (first_error copied closed))
          desc.size 0 w (copy_verified-Copies desc dest body w)
          (λ copied u.
            >>=-Copies (attempt flush) (λ closed. settle F dest (first_error copied closed)) 0 0 u
              (flush-Copies u) (λ closed v. settle-Copies dest (first_error copied closed) v)) in
      omega (arith, all)

  -- What follows the charge.
  abbrev charged : Descriptor → Bytes → Option DownloadBudget → M (Option DownloadBudget)
  charged desc dest left = do
    body ← lift (wrap_result "fetch blob" (F.fetch desc))
    wrapping "create blob file" (open_file dest 0o666)
    store_blob F desc dest body
    pure left

  charged-Copies :
      (desc : Descriptor) (dest : Bytes) (left : Option DownloadBudget) (w : World)
      → Copies desc.size w (charged desc dest left w)
  charged-Copies desc dest left w =
      let all =
        >>=-Copies (lift (wrap_result "fetch blob" (F.fetch desc))) (behind left) 0
          (0 + (desc.size + 0)) w (lift-Copies (wrap_result "fetch blob" (F.fetch desc)) w)
          (λ body u.
            >>=-Copies (wrapping "create blob file" (open_file dest 0o666))
              (λ _. store_blob F desc dest body >> pure left) 0 (desc.size + 0) u
              (open_file-Copies dest u)
              (λ _ v.
                >>=-Copies (store_blob F desc dest body) (λ _. pure left) desc.size 0 v
                  (store_blob-Copies desc dest body v) (λ _ x. lift-Copies (ok left) x))) in
      omega (arith, all)
    where
      behind : Option DownloadBudget → Body → M (Option DownloadBudget)
      behind left body = do
        wrapping "create blob file" (open_file dest 0o666)
        store_blob F desc dest body
        pure left

  charged-Yields :
      (desc : Descriptor) (dest : Bytes) (left : Option DownloadBudget) (w : World)
      → Yields (λ a. a ≡ left) (charged desc dest left w)
  charged-Yields desc dest left w =
      >>=-Yields (λ a. a ≡ left) (lift (wrap_result "fetch blob" (F.fetch desc))) _ w
        λ body u _.
          >>=-Yields (λ a. a ≡ left) (wrapping "create blob file" (open_file dest 0o666))
            (λ _. store_blob F desc dest body >> pure left) u
            λ _ v _.
              >>=-Yields (λ a. a ≡ left) (store_blob F desc dest body) (λ _. pure left) v
                λ _ x _. refl

  -- A download that the budget of the pull admits: its bytes, and what it leaves.
  pub fetch_blob_to_file-Copies :
      {B : Type 0} (desc : Descriptor) (dest : Bytes) (b : DownloadBudget)
      (f : Option DownloadBudget → M B) (w : World)
      → IsBudget b
      → IsNat desc.size
      → (desc.size ≤ b.remaining
          → (u : World) → Copies (b.remaining - desc.size) u (f (some (less desc b)) u))
      → Copies b.remaining w ((fetch_blob_to_file F desc dest (some b) >>= f) w)
  unfolding fetch_blob_to_file charge_any
  fetch_blob_to_file-Copies {B} desc dest b f w i h next = go (charge desc b) refl
    where
      behind :
          desc.size ≤ b.remaining
          → (o : Result (Option DownloadBudget) × World) → Copies desc.size w o
          → Yields (λ a. a ≡ some (less desc b)) o
          → Copies b.remaining w (proceed f o)
      behind fits (err e, u) first y = omega (arith, first)
      behind fits (ok a, u) first y =
          let rest : Copies (b.remaining - desc.size) u (f a u) =
            subst (λ a. Copies (b.remaining - desc.size) u (f a u)) (sym y) (next fits u) in
          omega (arith, first, rest)

      go :
          (r : Result DownloadBudget)
          → charge desc b ≡ r
          → Copies b.remaining w (
              ((lift (elim r [ ok c ↦ ok (some c) | err e ↦ err e ]) >>= charged desc dest) >>= f)
                w)
      go (err e) q = omega arith
      go (ok c) q =
          let (small, fits) = charge_refuses desc b c i h q in
          let same : ok (less desc b) ≡ ok c = sym (charge_fits desc b i h small fits) ∙ q in
          let left : less desc b ≡ c =
            ap (λ (r : Result DownloadBudget). elim r [ ok x ↦ x | err e ↦ b ]) same in
          behind fits (charged desc dest (some c) w) (charged-Copies desc dest (some c) w) (
            subst (λ d. Yields (λ a. a ≡ some d) (charged desc dest (some c) w)) (sym left)
              (charged-Yields desc dest (some c) w))

module _ {Body : Type 0} (R : Registry Body)
    (is_bounded : (repo : Repository) (desc : Descriptor) (body : Body)
      → length ((R.client repo).passed desc body) ≤ desc.size) where
  pull_layers-Copies :
      (repo : Repository) (tmp : Bytes) (layers : List Descriptor) (b : DownloadBudget) (w : World)
      → IsBudget b
      → AreNat layers
      → Copies b.remaining w (pull_layers R repo tmp layers (some b) w)
  unfolding pull_layers
  pull_layers-Copies repo tmp [] b w i all = omega arith
  pull_layers-Copies repo tmp (layer ∷ layers) b w i (h, all) =
      fetch_blob_to_file-Copies (R.client repo) (is_bounded repo) (layer_desc layer)
        (join tmp (blob_name layer)) b (pull_layers R repo tmp layers) w i h
        (λ _ u.
          pull_layers-Copies repo tmp layers (less (layer_desc layer) b) u
            (less-IsBudget (layer_desc layer) b i) all)

  -- Where the reader of a blob gives no more bytes than its descriptor declares and no declared size
  -- is negative, the downloads of an artifact write no more than the resolved --max-total-bytes all
  -- together, on every outcome.
  pub pull_layers-WithinLimit :
      (repo : Repository) (tmp : Bytes) (layers : List Descriptor) (lim : Limits) (w : World)
      → AreWords lim
      → AreNat layers
      → (pull_layers R repo tmp layers (some (new_download_budget lim)) w).1.copied
        ≤ w.copied + (with_defaults lim).max_total_bytes
  unfolding new_download_budget
  pull_layers-WithinLimit repo tmp layers lim w words all =
      pull_layers-Copies repo tmp layers (new_download_budget lim) w
        (new_download_budget-IsBudget lim words) all
