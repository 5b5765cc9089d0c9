-- ===== src/Pull/Blob/Verified.antt =====
-- What `fetchBlobToFile` leaves behind.
use unpacker.Base.{ℕ, ◌≡◌, refl, sym, ap, ◌∙◌, arith, length}
use unpacker.Base.{Option, none, some}
use unpacker.Base.Text.{Bytes}
use unpacker.Errors.{first_error, Result, ok, err, wrap_result}
use unpacker.System.{
  World, M, proceed, ◌>>=◌, ◌>>◌, pure, attempt, wrapping, lift, open_file, write, flush, call,
  append_to, next_fault, count_written, before_fault,
}
use unpacker.System.{file, find, put}
use unpacker.System.Sequel.{>>=-ok, wrapping-ok}
use unpacker.Extract.Complete.{open_file-ok, kept_mode}
use unpacker.Pull.Budget.{Descriptor, DownloadBudget, charge_any}
use unpacker.Pull.Blob.{Fetcher, copy_verified, settle, store_blob, fetch_blob_to_file}

-- What oras-go documents of `VerifyReader`: where reading and `Verify` raise no error, the bytes that
-- went through have the digest and the size of the descriptor.
pub record IsVerifying {Body : Type 0} (F : Fetcher Body) (hash : Bytes → Bytes) : Type 0 where
  pub sound :
      (desc : Descriptor) (body : Body)
      → F.read_error desc body ≡ ok tt
      → F.verify desc body ≡ ok tt
      → (hash (F.passed desc body) ≡ desc.digest) × (length (F.passed desc body) ≡ desc.size)

module _ {Body : Type 0} (F : Fetcher Body) where
  -- A copy that goes through has written all that the reader let pass.
  copied_ok :
      (desc : Descriptor) (dest : Bytes) (body : Body) (w : World) {v : World}
      → copy_verified F desc dest body w ≡ (ok tt, v)
      → (v.disk ≡ append_to dest (F.passed desc body) w.disk)
        × (F.read_error desc body ≡ ok tt)
        × (F.verify desc body ≡ ok tt)
  unfolding copy_verified write
  copied_ok desc dest body w {v} h =
      let f = (next_fault w.faults).0 in
      let (d, r, s, whole) =
        go f (F.read_error desc body) (F.verify desc body) (write dest (F.passed desc body) w).1
          h in
      (d ∙ ap (λ z. append_to dest z w.disk) whole, r, s)
    where
      outcome : Result (Unit {0}) × World → Result (Unit {0})
      outcome o = o.0

      go :
          (f : Option ℕ) (r s : Result (Unit {0})) (u : World)
          → proceed (λ _. lift r >> lift s) (count_written f (F.passed desc body), u) ≡ (ok tt, v)
          → (v.disk ≡ u.disk)
            × (r ≡ ok tt)
            × (s ≡ ok tt)
            × (before_fault f (F.passed desc body) ≡ F.passed desc body)
      go none (ok x) (ok y) u h =
          (ap (λ (o : Result (Unit {0}) × World). o.1.disk) (sym h), refl, refl, refl)
      go none (ok x) (err e) u h = absurd (ground (arith, ap outcome h))
      go none (err e) s u h = absurd (ground (arith, ap outcome h))
      go (some k) r s u h = absurd (ground (arith, ap outcome h))

  -- A blob that is kept was copied and verified; closing the file changes nothing on the disk.
  stored_ok :
      (desc : Descriptor) (dest : Bytes) (body : Body) (w : World) {v : World}
      → store_blob F desc dest body w ≡ (ok tt, v)
      → (v.disk ≡ append_to dest (F.passed desc body) w.disk)
        × (F.read_error desc body ≡ ok tt)
        × (F.verify desc body ≡ ok tt)
  unfolding store_blob flush call
  stored_ok desc dest body w {v} = go (copy_verified F desc dest body w) refl
    where
      closed :
          (r : Result (Unit {0})) (u : World) → settle F dest r u ≡ (ok tt, v) → v.disk ≡ u.disk
      closed (ok x) u h = ap (λ (o : Result (Unit {0}) × World). o.1.disk) (sym h)
      closed (err e) u h = absurd (ground (arith, ap (λ (o : Result (Unit {0}) × World). o.0) h))

      go :
          (o : Result (Unit {0}) × World)
          → copy_verified F desc dest body w ≡ o
          → proceed
              (λ copied. attempt flush >>= λ closed. settle F dest (first_error copied closed))
              (ok o.0, o.1)
            ≡ (ok tt, v)
          → (v.disk ≡ append_to dest (F.passed desc body) w.disk)
            × (F.read_error desc body ≡ ok tt)
            × (F.verify desc body ≡ ok tt)
      go (err e, u) q h = absurd (ground (arith, ap (λ (o : Result (Unit {0}) × World). o.0) h))
      go (ok x, u) q h =
          let (d, r, s) = copied_ok desc dest body w q in
          (closed (flush u).0 (flush u).1 h ∙ d, r, s)

  -- What follows the charge and the fetch.
  abbrev created : Descriptor → Bytes → Body → Option DownloadBudget → M (Option DownloadBudget)
  created desc dest body left =
      wrapping "create blob file" (open_file dest 0o666)
      >> (store_blob F desc dest body >> pure left)

  created_ok :
      (desc : Descriptor) (dest : Bytes) (body : Body) (l : Option DownloadBudget) (w : World)
      {left : Option DownloadBudget} {v : World}
      → created desc dest body l w ≡ (ok left, v)
      → (v.disk ≡ put dest (file (kept_mode 0o666 (find dest w.disk)) (F.passed desc body)) w.disk)
        × (F.read_error desc body ≡ ok tt)
        × (F.verify desc body ≡ ok tt)
  created_ok desc dest body l w {left} {v} h =
      let (x, u, opened, rest) =
        >>=-ok (wrapping "create blob file" (open_file dest 0o666))
          (λ _. store_blob F desc dest body >> pure l) w h in
      let (y, z, stored, last) = >>=-ok (store_blob F desc dest body) (λ _. pure l) u rest in
      let (d, r, s) = stored_ok desc dest body u stored in
      let o = wrapping-ok "create blob file" (open_file dest 0o666) w opened in
      let finished : v.disk ≡ z.disk =
        sym (ap (λ (q : Result (Option DownloadBudget) × World). q.1.disk) last) in
      (
        finished
            ∙ d
            ∙ sym (
                ap (λ (q : Result (Unit {0}) × World). append_to dest (F.passed desc body) q.1.disk)
                  o)
            ∙ open_file-ok dest (F.passed desc body) 0o666 w
                (ap (λ (q : Result (Unit {0}) × World). q.0) o),
        r,
        s,
      )

  module _ (hash : Bytes → Bytes) (V : IsVerifying F hash) where
    -- Where `fetchBlobToFile` returns no error, the file holds bytes with the digest and the size
    -- that the descriptor names, and it is the only entry of the disk that has changed; this for a
    -- `VerifyReader` that does what it is documented to do.
    pub fetch_blob_to_file-IsVerified :
        (desc : Descriptor) (dest : Bytes) (budget left : Option DownloadBudget) (w v : World)
        → fetch_blob_to_file F desc dest budget w ≡ (ok left, v)
        → (mode : ℕ) × (s : Bytes) × (v.disk ≡ put dest (file mode s) w.disk)
          × (hash s ≡ desc.digest)
          × (length s ≡ desc.size)
    unfolding fetch_blob_to_file
    fetch_blob_to_file-IsVerified desc dest budget left w v h =
        read (charge_any desc budget) (wrap_result "fetch blob" (F.fetch desc)) h
      where
        read :
            (c : Result (Option DownloadBudget)) (b : Result Body)
            → proceed (λ l. lift b >>= λ body. created desc dest body l) (c, w) ≡ (ok left, v)
            → (mode : ℕ) × (s : Bytes) × (v.disk ≡ put dest (file mode s) w.disk)
              × (hash s ≡ desc.digest)
              × (length s ≡ desc.size)
        read (ok l) (ok body) h =
            let (d, r, s) = created_ok desc dest body l w h in
            let (digest, size) = V.sound desc body r s in (_, F.passed desc body, d, digest, size)
        read (ok l) (err e) h =
            absurd (ground (arith, ap (λ (o : Result (Option DownloadBudget) × World). o.0) h))
        read (err e) b h =
            absurd (ground (arith, ap (λ (o : Result (Option DownloadBudget) × World). o.0) h))
