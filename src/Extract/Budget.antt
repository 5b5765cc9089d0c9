-- ===== src/Extract/Budget.antt =====
-- What an extraction may write: the limits of `copyLimited`, followed through the loop.
use Prim.Native.Nat.{min}
use unpacker.Base.{ℕ, ◌+◌, ◌-◌, ◌≤◌, ◌<◌, ◌≡◌, refl, sym, ap, subst, ◌∙◌}
use unpacker.Base.{arith, Option, none, some, length, take}
use unpacker.Base.{length-take, take-length}
use unpacker.Base.Text.{Bytes}
use unpacker.Base.Word.{I64, max_i64, add_i64, sub_i64, lt_i64}
use unpacker.Errors.{Error, Result, ok, err}
use unpacker.System.{
  World, call, proceed, lift, pure, ◌>>◌, count_written, write, flush, append_to, next_fault,
  before_fault,
}
use unpacker.Limits.{Limits}
use unpacker.Extract.{
  limit_reader, limit_error, copy_window, copy_through, finish_file, check_copied,
}
use unpacker.Extract.{copy_limited}

-- Limits as `withDefaults` gives them, with room for the byte that is read past a file's limit.
pub record IsResolved (lim : Limits) : Type 0 where
  pub total_room : lim.max_total_bytes < max_i64
  pub file_room : lim.max_file_bytes < max_i64
  pub entries_room : lim.max_entries < max_i64

length-before_fault : (f : Option ℕ) (s : Bytes) → length (before_fault f s) ≤ length s
length-before_fault none s = omega arith
length-before_fault (some k) s = omega (arith, length-take k s)

-- The copy itself changes one file, by what was written before a fault.
module _ (target body : Bytes) (body_error : Option Error) (window : I64) (w : World) where
  abbrev written : Bytes
  written = before_fault (next_fault w.faults).0 (limit_reader window body)

  through_world :
      ((copy_through target body body_error window w).1.copied ≡ w.copied + length written)
      × ((copy_through target body body_error window w).1.disk ≡ append_to target written w.disk)
  unfolding copy_through write
  through_world = (
    ap (λ (u : World). u.copied) (same f (limit_error window body body_error) v),
    ap (λ (u : World). u.disk) (same f (limit_error window body body_error) v),
  )
    where
      f : Option ℕ
      f = (next_fault w.faults).0

      v : World
      v = (write target (limit_reader window body) w).1

      same :
          (f : Option ℕ) (e : Result (Unit {0})) (v : World)
          → (proceed (λ n. lift e >> pure n) (count_written f (limit_reader window body), v)).1 ≡ v
      same none (ok u) v = refl
      same none (err e) v = refl
      same (some k) e v = refl

  through_ok :
      (n : ℕ)
      → (copy_through target body body_error window w).0 ≡ ok n
      → (n ≡ length (limit_reader window body))
        × (limit_error window body body_error ≡ ok tt)
        × (written ≡ limit_reader window body)
  unfolding copy_through write
  through_ok n =
      read (next_fault w.faults).0 (limit_error window body body_error)
        (write target (limit_reader window body) w).1
    where
      read :
          (f : Option ℕ) (e : Result (Unit {0})) (v : World)
          → (proceed (λ n. lift e >> pure n) (count_written f (limit_reader window body), v)).0
            ≡ ok n
          → (n ≡ length (limit_reader window body))
            × (e ≡ ok tt)
            × (before_fault f (limit_reader window body) ≡ limit_reader window body)
      read none (ok tt) v h = (ground arith, refl, refl)
      read none (err e) v h = cc
      read (some k) e v h = cc

finish_world :
    (r : Result ℕ) (w : World)
    → ((finish_file r w).1.copied ≡ w.copied) × ((finish_file r w).1.disk ≡ w.disk)
unfolding finish_file flush call
finish_world (err e) w = (refl, refl)
finish_world (ok n) w =
    (ap (λ (u : World). u.copied) (same _ _ _), ap (λ (u : World). u.disk) (same _ _ _))
  where
    same : (a b : Result (Unit {0})) (v : World) → ((lift a >> (lift b >> pure n)) v).1 ≡ v
    same (ok x) (ok y) v = refl
    same (ok x) (err e) v = refl
    same (err e) b v = refl

finish_ok : (r : Result ℕ) (w : World) (n : ℕ) → (finish_file r w).0 ≡ ok n → r ≡ ok n
unfolding finish_file flush call
finish_ok (err e) w n h = h
finish_ok (ok m) w n h = ground arith

module _ (lim : Limits) (v : IsResolved lim) (total : I64)
    (fits : total ≤ lim.max_total_bytes) where
  copy_window_lem : copy_window lim total ≡ min (lim.max_total_bytes - total) lim.max_file_bytes + 1
  unfolding copy_window add_i64 sub_i64 lt_i64
  copy_window_lem = ground arith

  limit_reader-take :
      (body : Bytes)
      → limit_reader (copy_window lim total) body
        ≡ take (min (lim.max_total_bytes - total) lim.max_file_bytes + 1) body
  unfolding limit_reader lt_i64
  limit_reader-take body = rw copy_window_lem (ground arith)

  check_copied-ok :
      (n t : ℕ)
      → n ≤ min (lim.max_total_bytes - total) lim.max_file_bytes + 1
      → check_copied lim total n ≡ ok t
      → (t ≡ total + n) × (n ≤ lim.max_file_bytes) × (t ≤ lim.max_total_bytes)
  unfolding check_copied lt_i64 add_i64
  check_copied-ok n t h e = ground arith

  -- What is known of the copy of one file into an open file.
  abbrev pub CopyOutcome : Bytes → Option Error → Bytes → World → Result I64 × World → Type 0
  CopyOutcome target body_error body w (ok t, w') =
      (t ≡ total + length body)
      × (length body ≤ lim.max_file_bytes)
      × (t ≤ lim.max_total_bytes)
      × (w'.copied ≡ w.copied + length body)
      × (w'.disk ≡ append_to target body w.disk)
      × (body_error ≡ none)
  CopyOutcome target body_error body w (err e, w') =
      w'.copied + total ≤ w.copied + lim.max_total_bytes + 1

  -- A copy that is cut short by the limit is found out by the count.
  whole_body :
      (body : Bytes) (body_error : Option Error) (t : I64)
      → check_copied lim total (length (limit_reader (copy_window lim total) body)) ≡ ok t
      → limit_error (copy_window lim total) body body_error ≡ ok tt
      → (limit_reader (copy_window lim total) body ≡ body)
        × (length body ≤ lim.max_file_bytes)
        × (total + length body ≤ lim.max_total_bytes)
        × (t ≡ total + length body)
        × (body_error ≡ none)
  unfolding limit_error lt_i64
  whole_body body body_error t checked read =
      let bound : ℕ = min (lim.max_total_bytes - total) lim.max_file_bytes + 1 in
      let cut = limit_reader-take body in
      let small : length (take bound body) ≤ bound = omega (arith, length-take bound body) in
      let sums =
        check_copied-ok (length (take bound body)) t small
          (subst (λ z. check_copied lim total (length z) ≡ ok t) cut checked) in
      let short : length body < bound =
        omega (arith, length-take bound body, sums.0, sums.1, sums.2) in
      let same = take-length bound body (omega (arith, short)) in
      (
        cut ∙ same,
        subst (λ z. length z ≤ lim.max_file_bytes) same sums.1,
        omega (arith, ap length same, sums.0, sums.2),
        sums.0 ∙ ap (λ z. total + length z) same,
        no_error body_error read short,
      )
    where
      no_error :
          (e : Option Error)
          → limit_error (copy_window lim total) body e ≡ ok tt
          → length body < min (lim.max_total_bytes - total) lim.max_file_bytes + 1
          → e ≡ none
      no_error none h k = refl
      no_error (some e) h k = ground (arith, copy_window_lem, v.file_room)

  pub copy_limited_lem :
      (target body : Bytes) (body_error : Option Error) (w : World)
      → CopyOutcome target body_error body w (copy_limited target body body_error lim total w)
  unfolding copy_limited
  copy_limited_lem target body body_error w = finished (finish_file through.0 through.1) refl
    where
      window : I64
      window = copy_window lim total

      through : Result ℕ × World
      through = copy_through target body body_error window w

      copied_as :
          (o : Result ℕ × World)
          → finish_file through.0 through.1 ≡ o
          → o.1.copied ≡ through.1.copied
      copied_as o e =
          ap (λ (z : Result ℕ × World). z.1.copied) (sym e) ∙ (finish_world through.0 through.1).0

      overrun :
          (v : World)
          → v.copied ≡ through.1.copied
          → v.copied + total ≤ w.copied + lim.max_total_bytes + 1
      overrun v e =
          let size = (through_world target body body_error window w).0 in
          let cut = ap length (limit_reader-take body) in
          omega (
            arith,
            e,
            size,
            cut,
            length-take (min (lim.max_total_bytes - total) lim.max_file_bytes + 1) body,
            length-before_fault (next_fault w.faults).0 (limit_reader window body),
          )

      accepted :
          (n t : ℕ) (v : World)
          → finish_file through.0 through.1 ≡ (ok n, v)
          → check_copied lim total n ≡ ok t
          → CopyOutcome target body_error body w (ok t, v)
      accepted n t v e c =
          let done =
            through_ok target body body_error window w n
              (finish_ok through.0 through.1 n (ap (λ (z : Result ℕ × World). z.0) e)) in
          let whole =
            whole_body body body_error t (subst (λ z. check_copied lim total z ≡ ok t) done.0 c)
              done.1 in
          let world = through_world target body body_error window w in
          let same : written target body body_error window w ≡ body = done.2 ∙ whole.0 in
          (
            whole.3,
            whole.1,
            omega (arith, whole.2, whole.3),
            copied_as (ok n, v) e ∙ world.0 ∙ ap (λ z. w.copied + length z) same,
            ap (λ (z : Result ℕ × World). z.1.disk) (sym e)
                ∙ (finish_world through.0 through.1).1
                ∙ world.1
                ∙ ap (λ z. append_to target z w.disk) same,
            whole.4,
          )

      checked :
          (n : ℕ) (v : World) (c : Result I64)
          → finish_file through.0 through.1 ≡ (ok n, v)
          → check_copied lim total n ≡ c
          → CopyOutcome target body_error body w (lift c v)
      checked n v (ok t) e c = accepted n t v e c
      checked n v (err x) e c = overrun v (copied_as (ok n, v) e)

      finished :
          (o : Result ℕ × World)
          → finish_file through.0 through.1 ≡ o
          → CopyOutcome target body_error body w (proceed (λ n. lift (check_copied lim total n)) o)
      finished (ok n, v) e = checked n v (check_copied lim total n) e refl
      finished (err x, v) e = overrun v (copied_as (err x, v) e)
