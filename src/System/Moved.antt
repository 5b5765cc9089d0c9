-- ===== src/System/Moved.antt =====
-- What a removal and a renaming of a directory that go through have done.
use unpacker.Base.{
  ℕ, ◌≡◌, refl, sym, ap, subst, ◌∙◌, ◌⊎◌, inl, inr, arith, Bool, true, false, List, [], ◌∷◌, ◌++◌,
  append-nil, append_assoc, Option, none, some, length, drop, if◌then◌else◌,
}
use unpacker.Base.Text.{Bytes, bytes_eq, bytes_eq_iff, bytes_eq_refl, has_prefix}
use unpacker.Path.{slash}
use unpacker.Errors.{Result, ok}
use unpacker.System.Disk.{Disk, find, within, remove_tree, move_tree, occupied}
use unpacker.System.Monad.{
  World, call, next_fault, is_there, run_remove_all, remove_all, renamed, run_rename, rename,
}

-- The directory itself, or what stands below it.
abbrev pub IsTail : Bytes → Type 0
IsTail s = (s ≡ []) ⊎ ((t : Bytes) × (s ≡ slash ∷ t))

has_prefix-append : (p s t : Bytes) → has_prefix (p ++ s) (p ++ t) ≡ has_prefix s t
unfolding has_prefix
has_prefix-append [] s t = refl
has_prefix-append (c ∷ p) s t = ground (arith, has_prefix-append p s t)

pub bytes_eq-append : (p s t : Bytes) → bytes_eq (p ++ s) (p ++ t) ≡ bytes_eq s t
unfolding bytes_eq
bytes_eq-append [] s t = refl
bytes_eq-append (c ∷ p) s t = ground (arith, bytes_eq-append p s t)

pub within-append : (p s t : Bytes) → within (p ++ s) (p ++ t) ≡ within s t
unfolding within
within-append p s t =
    let shift : has_prefix (p ++ t) ((p ++ s) ++ (slash ∷ [])) ≡ has_prefix t (s ++ (slash ∷ [])) =
      ap (has_prefix (p ++ t)) (append_assoc p s (slash ∷ []))
      ∙ has_prefix-append p t (s ++ (slash ∷ [])) in
    ground (arith, bytes_eq-append p s t, shift)

pub within-tail : (p s : Bytes) → IsTail s → within p (p ++ s) ≡ true
unfolding within has_prefix
within-tail p s (inl e) = rw e (ground (arith, bytes_eq_refl p, append-nil p))
within-tail p s (inr (t, e)) = rw e (ground (arith, has_prefix-append p (slash ∷ t) (slash ∷ [])))

has_prefix-drop : (p q r : Bytes) → has_prefix q (p ++ r) ≡ true → q ≡ p ++ drop (length p) q
unfolding has_prefix
has_prefix-drop [] q r h = refl
has_prefix-drop (c ∷ p) [] r h = cc
has_prefix-drop (c ∷ p) (b ∷ q) r h = ground (arith, has_prefix-drop p q r)

drop-length : (p : Bytes) → p ≡ p ++ drop (length p) p
drop-length [] = refl
drop-length (c ∷ p) = ap (λ s. c ∷ s) (drop-length p)

pub within-drop : (p q : Bytes) → within p q ≡ true → q ≡ p ++ drop (length p) q
unfolding within
within-drop p q h = go (bytes_eq p q) refl
  where
    go : (b : Bool) → bytes_eq p q ≡ b → q ≡ p ++ drop (length p) q
    go true e = subst (λ z. z ≡ p ++ drop (length p) z) ((bytes_eq_iff p q).0 e) (drop-length p)
    go false e = has_prefix-drop p q (slash ∷ []) (ground arith)

-- A renamed tree is found under its new name, where nothing stood.
pub find-move_tree :
    (from to s : Bytes) (d : Disk)
    → IsTail s
    → occupied to d ≡ false
    → find (to ++ s) (move_tree from to d) ≡ find (from ++ s) d
unfolding find move_tree occupied
find-move_tree from to s [] tail free = refl
find-move_tree from to s ((q, n) ∷ d) tail free =
    let ih = find-move_tree from to s d tail (ground arith) in
    go (within from q) refl (ground arith) ih
  where
    x : Bytes
    x = drop (length from) q

    other : (p : Bytes) → within p q ≡ false → bytes_eq q (p ++ s) ≡ false
    other p h = differs (bytes_eq q (p ++ s)) refl
      where
        differs : (b : Bool) → bytes_eq q (p ++ s) ≡ b → b ≡ false
        differs false e = refl
        differs true e =
            let same : within p q ≡ true =
              subst (λ z. within p z ≡ true) (sym ((bytes_eq_iff q (p ++ s)).0 e))
                (within-tail p s tail) in
            absurd (ground (arith, same, h))

    go :
        (b : Bool)
        → within from q ≡ b
        → within to q ≡ false
        → find (to ++ s) (move_tree from to d) ≡ find (from ++ s) d
        → find
            (to ++ s)
            (if b then (to ++ x, n) ∷ move_tree from to d else (q, n) ∷ move_tree from to d)
          ≡ (if bytes_eq q (from ++ s) then some n else find (from ++ s) d)
    go true h apart ih =
        let key : bytes_eq q (from ++ s) ≡ bytes_eq x s =
          ap (λ z. bytes_eq z (from ++ s)) (within-drop from q h) ∙ bytes_eq-append from x s in
        ground (arith, key, bytes_eq-append to x s, ih)
    go false h apart ih = ground (arith, other from h, other to apart, ih)

pub remove_all-ok :
    (p : Bytes) (w v : World) → remove_all p w ≡ (ok tt, v) → v.disk ≡ remove_tree p w.disk
unfolding remove_all call
remove_all-ok p w v h = go (next_fault w.faults) h
  where
    go :
        (f : Option ℕ × List (Option ℕ))
        → ◌≡◌ {A = Result (Unit {0}) × World}
            (
              (run_remove_all p f.0 w.disk).0,
              record w { disk = (run_remove_all p f.0 w.disk).1; faults = f.1 },
            )
            (ok tt, v)
        → v.disk ≡ remove_tree p w.disk
    go (none, fs) h = sym (ap (λ (o : Result (Unit {0}) × World). o.1.disk) h)
    go (some k, fs) h = absurd (ground (arith, ap (λ (o : Result (Unit {0}) × World). o.0) h))

pub rename-ok :
    (from to : Bytes) (w v : World)
    → rename from to w ≡ (ok tt, v)
    → (occupied to w.disk ≡ false) × (v.disk ≡ move_tree from to w.disk)
unfolding rename call
rename-ok from to w v h = go (next_fault w.faults) h
  where
    answer : Bool → Bool → List (Option ℕ) → Result (Unit {0}) × World
    answer a b fs = (
      (renamed from to w.disk a b).0,
      record w { disk = (renamed from to w.disk a b).1; faults = fs },
    )

    split_on :
        (a b : Bool) (fs : List (Option ℕ))
        → answer a b fs ≡ (ok tt, v)
        → (b ≡ false) × (v.disk ≡ move_tree from to w.disk)
    split_on true false fs h = (refl, sym (ap (λ (o : Result (Unit {0}) × World). o.1.disk) h))
    split_on true true fs h = absurd (ground (arith, ap (λ (o : Result (Unit {0}) × World). o.0) h))
    split_on false b fs h = absurd (ground (arith, ap (λ (o : Result (Unit {0}) × World). o.0) h))

    go :
        (f : Option ℕ × List (Option ℕ))
        → ◌≡◌ {A = Result (Unit {0}) × World}
            (
              (run_rename from to f.0 w.disk).0,
              record w { disk = (run_rename from to f.0 w.disk).1; faults = f.1 },
            )
            (ok tt, v)
        → (occupied to w.disk ≡ false) × (v.disk ≡ move_tree from to w.disk)
    go (none, fs) h = split_on (is_there (find from w.disk)) (occupied to w.disk) fs h
    go (some k, fs) h = absurd (ground (arith, ap (λ (o : Result (Unit {0}) × World). o.0) h))
