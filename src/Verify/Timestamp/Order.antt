-- ===== src/Verify/Timestamp/Order.antt =====
-- internal/unpacker/verify.go: observedTimestamp and the order of the timestamps.
use unpacker.Base.{◌≡◌, refl, sym, ap, ◌∙◌, Bool, true, false, List, [], ◌∷◌, some, if◌then◌else◌}
use unpacker.Base.Text.{Bytes, codes, bytes_eq}
use unpacker.Sorting.{insert, sort}
use unpacker.Sorting.Order.{insert-insert}
use unpacker.System.Disk.{name_le}
use unpacker.Verify.Timestamp.{
  observers, observed_timestamp, or_rekor_v2, named, join_plus, slices_compact,
}
use mathlib.Core.List.{Permᴰ}

sort-observers-cons :
    (s t : Bytes) (l m : List Bytes)
    → s ≡ t
    → sort (observers l) ≡ sort (observers m)
    → sort (observers (s ∷ l)) ≡ sort (observers (t ∷ m))
unfolding sort observers
sort-observers-cons s t l m e h = rw e (go (bytes_eq t (codes "CurrentTime")))
  where
    go :
        (b : Bool)
        → sort (if b then observers l else t ∷ observers l)
          ≡ sort (if b then observers m else t ∷ observers m)
    go true = h
    go false = ap (insert t) h

sort-observers-swap :
    (s t s' t' : Bytes) (l : List Bytes)
    → s ≡ t'
    → t ≡ s'
    → sort (observers (s ∷ t ∷ l)) ≡ sort (observers (s' ∷ t' ∷ l))
unfolding sort observers
sort-observers-swap s t s' t' l e f =
    rw e (rw f (go (bytes_eq t' (codes "CurrentTime")) (bytes_eq s' (codes "CurrentTime"))))
  where
    keep : Bool → Bytes → List Bytes → List Bytes
    keep b x l = if b then l else x ∷ l

    go :
        (b c : Bool)
        → sort (keep b t' (keep c s' (observers l))) ≡ sort (keep c s' (keep b t' (observers l)))
    go true true = refl
    go true false = refl
    go false true = refl
    go false false = insert-insert t' s' (sort (observers l))

sort-observers-Permᴰ : {l m : List Bytes} → Permᴰ l m → sort (observers l) ≡ sort (observers m)
sort-observers-Permᴰ Permᴰ.nil = refl
sort-observers-Permᴰ (Permᴰ.cons e h) = sort-observers-cons _ _ _ _ e (sort-observers-Permᴰ h)
sort-observers-Permᴰ (Permᴰ.swap e f) = sort-observers-swap _ _ _ _ _ e f
sort-observers-Permᴰ (Permᴰ.trans h k) = sort-observers-Permᴰ h ∙ sort-observers-Permᴰ k

abbrev by_sorted : Bytes → List Bytes → Bytes
by_sorted planned [] = or_rekor_v2 planned planned
by_sorted planned (t ∷ types) = join_plus (slices_compact (t ∷ types))

named-sort : (planned : Bytes) (l : List Bytes) → named planned l ≡ by_sorted planned (sort l)
unfolding sort insert
named-sort planned [] = refl
named-sort planned (t ∷ l) = go (sort l)
  where
    go : (m : List Bytes) → join_plus (slices_compact (insert t m)) ≡ by_sorted planned (insert t m)
    go [] = refl
    go (u ∷ m) = chosen (name_le t u)
      where
        chosen :
            (b : Bool)
            → join_plus (slices_compact (if b then t ∷ u ∷ m else u ∷ insert t m))
              ≡ by_sorted planned (if b then t ∷ u ∷ m else u ∷ insert t m)
        chosen true = refl
        chosen false = refl

named-Permᴰ :
    (planned : Bytes) {l m : List Bytes}
    → Permᴰ l m
    → named planned (observers l) ≡ named planned (observers m)
named-Permᴰ planned {l} {m} h =
    named-sort planned (observers l)
    ∙ ap (by_sorted planned) (sort-observers-Permᴰ h)
    ∙ sym (named-sort planned (observers m))

-- The name of what attested to the time does not depend on the order in which the verifier lists the
-- timestamps.
pub observed_timestamp-Permᴰ :
    (planned : Bytes) {l m : List Bytes}
    → Permᴰ l m
    → observed_timestamp (some l) planned ≡ observed_timestamp (some m) planned
unfolding observed_timestamp
observed_timestamp-Permᴰ planned Permᴰ.nil = refl
observed_timestamp-Permᴰ planned (Permᴰ.trans h k) =
    observed_timestamp-Permᴰ planned h ∙ observed_timestamp-Permᴰ planned k
observed_timestamp-Permᴰ planned (Permᴰ.cons e h) = named-Permᴰ planned (Permᴰ.cons e h)
observed_timestamp-Permᴰ planned (Permᴰ.swap {l = l} e f) =
    named-Permᴰ planned (Permᴰ.swap {l = l} e f)
