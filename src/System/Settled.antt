-- ===== src/System/Settled.antt =====
-- Programs that leave everything outside a region of the disk alone, but for missing directories on
-- the way to it, which may be made.
use unpacker.Base.{
  ℕ, ◌≡◌, refl, sym, ap, subst, ◌∙◌, ◌⊎◌, inl, inr, arith, Bool, true, false, [], ◌∷◌, ◌++◌, Option,
  none, some, zero, suc, append-nil, append_assoc, Bool-cases, if◌then◌else◌, drop, length,
}
use unpacker.Base.Text.{Bytes, bytes_eq, bytes_eq_iff, has_prefix→append}
use unpacker.Path.{slash, clean}
use unpacker.Path.Confine.{IsBelow}
use unpacker.System.Disk.{
  Node, folder, Disk, find, within, find-remove_tree, remove_some, move_tree, occupied,
}
use unpacker.System.Monad.{
  World, call, next_fault, run_remove_all, remove_all, run_rename, renamed, rename, ancestors,
  is_there,
}
use unpacker.System.Keeps.{Keeps, IsPreorder}
use unpacker.System.Ancestors.{OneOf}
use unpacker.System.Confined.{Confined, Kept}
use unpacker.System.Stored.{OnlyAt}
use unpacker.System.Moved.{IsTail, within-tail}

-- What lies below a cleaned directory is within it.
pub IsBelow-within : (d q : Bytes) → clean d ≡ d → IsBelow d q → within d q ≡ true
IsBelow-within d q c (rest, e, names) =
    subst (λ z. within d z ≡ true) (sym (e ∙ ap (λ z. z ++ (slash ∷ rest)) c))
      (within-tail d (slash ∷ rest) (inr (rest, refl)))

remove_some-elsewhere :
    (k : ℕ) (p q : Bytes) (d : Disk) → within p q ≡ false → find q (remove_some k p d) ≡ find q d
unfolding remove_some find
remove_some-elsewhere zero p q d h = refl
remove_some-elsewhere (suc k) p q [] h = refl
remove_some-elsewhere (suc k) p q ((r, n) ∷ d) h =
    let less = remove_some-elsewhere k p q d h in
    let same = remove_some-elsewhere (suc k) p q d h in ground (arith, bytes_eq_iff r q, less, same)

drop-append : (p s : Bytes) → drop (length p) (p ++ s) ≡ s
drop-append [] s = refl
drop-append (c ∷ p) s = drop-append p s

-- A path within a directory is that directory, or what stands behind it begins with a slash.
within-IsTail : (p q : Bytes) → within p q ≡ true → (s : Bytes) × IsTail s × (q ≡ p ++ s)
unfolding within
within-IsTail p q h = elim (Bool-cases (bytes_eq p q)) [
  | inl e ↦ ([], inl refl, sym (append-nil p ∙ (bytes_eq_iff p q).0 e))
  | inr e ↦
      let (r, f) = has_prefix→append q (p ++ (slash ∷ [])) (ground arith) in
      (slash ∷ r, inr (r, refl), f ∙ append_assoc p (slash ∷ []) r)
]

renamed-within :
    (from to q : Bytes) → within from q ≡ true → within to (to ++ drop (length from) q) ≡ true
renamed-within from to q h =
    let (s, tail, e) = within-IsTail from q h in
    subst (λ z. within to (to ++ drop (length from) z) ≡ true) (sym e)
      (subst (λ z. within to (to ++ z) ≡ true) (sym (drop-append from s)) (within-tail to s tail))

bytes_eq-apart : (p r q : Bytes) → within p r ≡ true → within p q ≡ false → bytes_eq r q ≡ false
bytes_eq-apart p r q h k = elim (Bool-cases (bytes_eq r q)) [
  | inl e ↦ absurd (cc (subst (λ z. within p z ≡ true) ((bytes_eq_iff r q).0 e) h, k))
  | inr e ↦ e
]

move_tree-elsewhere :
    (from to q : Bytes) (d : Disk)
    → within from q ≡ false
    → within to q ≡ false
    → find q (move_tree from to d) ≡ find q d
unfolding move_tree find
move_tree-elsewhere from to q [] h k = refl
move_tree-elsewhere from to q ((r, n) ∷ d) h k =
    let ih = move_tree-elsewhere from to q d h k in
    elim (Bool-cases (within from r)) [
      | inl e ↦
          let old : bytes_eq r q ≡ false = bytes_eq-apart from r q e h in
          let new : bytes_eq (to ++ drop (length from) r) q ≡ false =
            bytes_eq-apart to (to ++ drop (length from) r) q (renamed-within from to r e) k in
          rw (e, old, find, new) ih
      | inr e ↦ rw (e, find) (ap (λ z. if bytes_eq r q then some n else z) ih)
    ]

module _ (inside : Bytes → Bool) (OnWay : Bytes → Type 0) where
  abbrev pub Made : Bytes → Option Node → Option Node → Type 0
  Made q a b = (b ≡ a) ⊎ ((m : ℕ) × (a ≡ none) × OnWay q × (b ≡ some (folder m)))

  abbrev pub Settled : World → World → Type 0
  Settled w v = (q : Bytes) → inside q ≡ false → Made q (find q w.disk) (find q v.disk)

  Made-trans : (q : Bytes) (a b c : Option Node) → Made q a b → Made q b c → Made q a c
  Made-trans q a b c (inl p) (inl r) = inl (r ∙ p)
  Made-trans q a b c (inl p) (inr (m, n, o, r)) = inr (m, sym p ∙ n, o, r)
  Made-trans q a b c (inr (m, n, o, r)) (inl p) = inr (m, n, o, p ∙ r)
  Made-trans q a b c (inr (m, n, o, r)) (inr (m', n', o', r')) = cc

  pub Settled-IsPreorder : IsPreorder Settled
  Settled-IsPreorder = record {
    same = λ w q _. inl refl;
    then_also = λ u v w f g q h.
        Made-trans q (find q u.disk) (find q v.disk) (find q w.disk) (f q h) (g q h);
    ignores_log = λ w l q _. inl refl;
  }

  -- A smaller region: the tree of a directory, or one path.
  pub Confined-Settled :
      (d : Bytes) (w v : World)
      → clean d ≡ d
      → ((q : Bytes) → within d q ≡ true → inside q ≡ true)
      → ((q : Bytes) → OneOf q (ancestors (clean d)) → OnWay q)
      → Confined d w v
      → Settled w v
  Confined-Settled d w v c within_region on_way kept q out =
      go (kept q (λ below. cc (within_region q (IsBelow-within d q c below), out)))
    where
      go : Kept d q (find q w.disk) (find q v.disk) → Made q (find q w.disk) (find q v.disk)
      go (inl e) = inl e
      go (inr (m, n, o, e)) = inr (m, n, on_way q o, e)

  pub OnlyAt-Settled : (p : Bytes) (w v : World) → inside p ≡ true → OnlyAt p w v → Settled w v
  OnlyAt-Settled p w v h only q out = elim (Bool-cases (bytes_eq p q)) [
    | inl e ↦ absurd (cc (subst (λ z. inside z ≡ true) ((bytes_eq_iff p q).0 e) h, out))
    | inr e ↦ inl (only q e)
  ]

  apart :
      (p q : Bytes)
      → ((r : Bytes) → within p r ≡ true → inside r ≡ true)
      → inside q ≡ false
      → within p q ≡ false
  apart p q h out = elim (Bool-cases (within p q)) [ inl e ↦ absurd (cc (h q e, out)) | inr e ↦ e ]

  pub remove_all-Settled :
      (p : Bytes)
      → ((q : Bytes) → within p q ≡ true → inside q ≡ true)
      → Keeps Settled (remove_all p)
  unfolding remove_all call
  remove_all-Settled p h w q out = go (next_fault w.faults).0
    where
      go : (f : Option ℕ) → Made q (find q w.disk) (find q (run_remove_all p f w.disk).1)
      go none = inl (find-remove_tree p q w.disk ∙ rw (apart p q h out) refl)
      go (some k) = inl (remove_some-elsewhere k p q w.disk (apart p q h out))

  pub rename-Settled :
      (from to : Bytes)
      → ((q : Bytes) → within from q ≡ true → inside q ≡ true)
      → ((q : Bytes) → within to q ≡ true → inside q ≡ true)
      → Keeps Settled (rename from to)
  unfolding rename call
  rename-Settled from to h k w q out = go (next_fault w.faults).0
    where
      moved : (a b : Bool) → Made q (find q w.disk) (find q (renamed from to w.disk a b).1)
      moved true false =
          inl (move_tree-elsewhere from to q w.disk (apart from q h out) (apart to q k out))
      moved true true = inl refl
      moved false b = inl refl

      go : (f : Option ℕ) → Made q (find q w.disk) (find q (run_rename from to f w.disk).1)
      go none = moved (is_there (find from w.disk)) (occupied to w.disk)
      go (some k) = inl refl

-- A larger region.
pub Settled-mono :
    (a b : Bytes → Bool) (A B : Bytes → Type 0) (w v : World)
    → ((q : Bytes) → a q ≡ true → b q ≡ true)
    → ((q : Bytes) → A q → B q)
    → Settled a A w v
    → Settled b B w v
Settled-mono a b A B w v f g h q out = elim (Bool-cases (a q)) [
  | inl e ↦ absurd (cc (f q e, out))
  | inr e ↦ wider (h q e)
]
  where
    wider : Made a A q (find q w.disk) (find q v.disk) → Made b B q (find q w.disk) (find q v.disk)
    wider (inl e) = inl e
    wider (inr (m, n, o, e)) = inr (m, n, g q o, e)
