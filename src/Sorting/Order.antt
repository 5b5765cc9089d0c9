-- ===== src/Sorting/Order.antt =====
-- The order of texts, and sorting by it.

use mathlib.Core.List.{Permᴰ}
use unpacker.Base.{◌≡◌, refl, ap, ◌∙◌, arith, true, false, List, [], ◌∷◌}
use unpacker.Base.Text.{Bytes}
use unpacker.System.Disk.{name_le}
use unpacker.Sorting.{insert, sort}

name_le_total : (s t : Bytes) → name_le s t ≡ false → name_le t s ≡ true
unfolding name_le
name_le_total [] t h = cc
name_le_total (a ∷ s) [] h = refl
name_le_total (a ∷ s) (b ∷ t) h = ground (arith, name_le_total s t)

name_le_antisym : (s t : Bytes) → name_le s t ≡ true → name_le t s ≡ true → s ≡ t
unfolding name_le
name_le_antisym [] [] h k = refl
name_le_antisym [] (b ∷ t) h k = cc
name_le_antisym (a ∷ s) [] h k = cc
name_le_antisym (a ∷ s) (b ∷ t) h k = ground (arith, name_le_antisym s t)

name_le_trans : (s t u : Bytes) → name_le s t ≡ true → name_le t u ≡ true → name_le s u ≡ true
unfolding name_le
name_le_trans [] t u h k = refl
name_le_trans (a ∷ s) [] u h k = cc
name_le_trans (a ∷ s) (b ∷ t) [] h k = cc
name_le_trans (a ∷ s) (b ∷ t) (c ∷ u) h k = ground (arith, name_le_trans s t u)

pub insert-insert : (s t : Bytes) (l : List Bytes) → insert s (insert t l) ≡ insert t (insert s l)
unfolding insert
insert-insert s t [] = ground (arith, name_le_total s t, name_le_antisym s t)
insert-insert s t (u ∷ l) = ground (
  arith,
  insert-insert s t l,
  name_le_total s t,
  name_le_antisym s t,
  name_le_trans s t u,
  name_le_trans t s u,
  name_le_total s u,
  name_le_total t u,
  name_le_antisym s u,
  name_le_antisym t u,
)

-- Sorting forgets the order.
pub sort-Permᴰ : {l m : List Bytes} → Permᴰ l m → sort l ≡ sort m
unfolding sort
sort-Permᴰ Permᴰ.nil = refl
sort-Permᴰ (Permᴰ.cons e h) = rw e (ap (insert _) (sort-Permᴰ h))
sort-Permᴰ (Permᴰ.swap {l = l} e f) = rw e (rw f (insert-insert _ _ (sort l)))
sort-Permᴰ (Permᴰ.trans h k) = sort-Permᴰ h ∙ sort-Permᴰ k
