-- ===== src/Report/Written.antt =====
-- What `WriteResult` leaves on the disk.
use unpacker.Base.{◌≡◌, refl, ap, subst, arith, [], ◌∷◌, ◌++◌}
use unpacker.Base.Text.{Bytes}
use unpacker.Errors.{Result, ok, err, wrap_result}
use unpacker.System.{World, ◌>>=◌, lift, write_file, read_file}
use unpacker.System.Keeps.{Keeps}
use unpacker.System.Reads.{Holds, read_file-found}
use unpacker.System.Stored.{OnlyAt, write_file-OnlyAt, write_file-Holds}
use unpacker.Config.{Config}
use unpacker.Report.{RunResult, result_path, write_result}

module _ (encode : RunResult → Result Bytes) (cfg : Config) (result : RunResult) where
  -- No other path changes, whether or not the record can be written.
  pub write_result-OnlyAt : Keeps (OnlyAt (result_path cfg)) (write_result encode cfg result)
  unfolding write_result
  write_result-OnlyAt w = go (encode result)
    where
      go :
          (r : Result Bytes)
          → OnlyAt
              (result_path cfg)
              w
              ((lift (wrap_result "encode result.json" r) >>= λ text.
                  write_file (result_path cfg) (text ++ (b'\n' ∷ [])) 0o644)
                w).1
      go (ok text) = write_file-OnlyAt (result_path cfg) (text ++ (b'\n' ∷ [])) 0o644 w
      go (err e) = λ q h. refl

  -- A `WriteResult` that goes through can be read back: where no call fails, result.json reads as the
  -- encoding of the record and a final newline. No other path has changed.
  pub write_result-read_file :
      (w v : World)
      → write_result encode cfg result w ≡ (ok tt, v)
      → v.faults ≡ []
      → (text : Bytes) × (x : World) × (encode result ≡ ok text)
        × (read_file (result_path cfg) v ≡ (ok (text ++ (b'\n' ∷ [])), x))
        × OnlyAt (result_path cfg) w v
  unfolding write_result
  write_result-read_file w v h quiet = encoded (encode result) refl h
    where
      body : Bytes → Bytes
      body text = text ++ (b'\n' ∷ [])

      encoded :
          (r : Result Bytes)
          → encode result ≡ r
          → (lift (wrap_result "encode result.json" r) >>= λ text.
                write_file (result_path cfg) (body text) 0o644)
              w
            ≡ (ok tt, v)
          → (text : Bytes) × (x : World) × (encode result ≡ ok text)
            × (read_file (result_path cfg) v ≡ (ok (body text), x))
            × OnlyAt (result_path cfg) w v
      encoded (err e) q h = absurd (ground (arith, ap (λ (o : Result (Unit {0}) × World). o.0) h))
      encoded (ok text) q h =
          let value = ap (λ (o : Result (Unit {0}) × World). o.0) h in
          let left = ap (λ (o : Result (Unit {0}) × World). o.1) h in
          let held =
            subst (λ x. Holds x.disk (result_path cfg) (body text)) left
              (write_file-Holds (result_path cfg) (body text) 0o644 w value) in
          let (x, read, _, _) = read_file-found (result_path cfg) v quiet held in
          (
            text,
            x,
            q,
            read,
            subst (OnlyAt (result_path cfg) w) left
                (write_file-OnlyAt (result_path cfg) (body text) 0o644 w),
          )
