-- ===== src/System/Ancestors.antt =====
-- The directories that `os.MkdirAll` makes on the way to a path below a directory.
use unpacker.Base.{ℕ, ◌≡◌, refl, sym, ap, subst, ◌∙◌, ◌⊎◌, inl, inr, arith}
use unpacker.Base.{
  List, [], ◌∷◌, ◌++◌, append_assoc, append-nil, All, All-append, All-append_left, Bool-cases,
}
use unpacker.Base.{◌==◌, ==_iff}
use unpacker.Base.Text.{Bytes}
use unpacker.Path.{slash, split, clean, IsName}
use unpacker.Path.Confine.{IsBelow, split-append}
use unpacker.System.Monad.{prefixes, ancestors}

-- Equal to one element of the list.
abbrev pub OneOf : Bytes → List Bytes → Type 0
OneOf q [] = ⊥
OneOf q (x ∷ xs) = (x ≡ q) ⊎ OneOf q xs

-- The directory, a directory above it, or a path below it.
abbrev pub Near : Bytes → Bytes → Type 0
Near d q = IsBelow d q ⊎ OneOf q (ancestors (clean d))

All-map {ℓ κ} :
    {A : Type ℓ} {P Q : A → Type κ} (f : (a : A) → P a → Q a) (l : List A) → All P l → All Q l
All-map f [] _ = tt
All-map f (x ∷ l) (h, hs) = (f x h, All-map f l hs)

prefixes-append :
    (s t cur : Bytes)
    → prefixes (s ++ (slash ∷ t)) cur ≡ prefixes s cur ++ prefixes t (cur ++ (s ++ (slash ∷ [])))
unfolding prefixes
prefixes-append [] t cur = refl
prefixes-append (c ∷ s) t cur =
    let ih = prefixes-append s t (cur ++ (c ∷ [])) in
    let shift = append_assoc cur (c ∷ []) (s ++ (slash ∷ [])) in ground (arith, ih, shift)

-- Each prefix of `s` that ends before a slash, or `s`.
Cut : Bytes → Bytes → Bytes → Type 0
Cut s cur a = (b : Bytes) × (a ≡ cur ++ b) × ((b ≡ s) ⊎ ((r : Bytes) × (s ≡ b ++ (slash ∷ r))))

Cut-cons : (c : ℕ) (s cur a : Bytes) → Cut s (cur ++ (c ∷ [])) a → Cut (c ∷ s) cur a
unfolding Cut
Cut-cons c s cur a (b, e, inl f) = (c ∷ b, e ∙ append_assoc cur (c ∷ []) b, inl (ap (λ x. c ∷ x) f))
Cut-cons c s cur a (b, e, inr (r, f)) =
    (c ∷ b, e ∙ append_assoc cur (c ∷ []) b, inr (r, ap (λ x. c ∷ x) f))

prefixes-Cut : (s cur : Bytes) → All (Cut s cur) (prefixes s cur)
unfolding prefixes Cut
prefixes-Cut [] cur = (([], sym (append-nil cur), inl refl), tt)
prefixes-Cut (c ∷ s) cur =
    let later =
      All-map (Cut-cons c s cur) (prefixes s (cur ++ (c ∷ [])))
        (prefixes-Cut s (cur ++ (c ∷ []))) in
    elim (Bool-cases (c == slash)) [
      | inl e ↦
          rw (e, prefixes)
            (([], sym (append-nil cur), inr (s, ap (λ x. x ∷ s) ((==_iff c slash).0 e))), later)
      | inr e ↦ rw (e, prefixes) later
    ]

OneOf-All : (l : List Bytes) → All (λ a. OneOf a l) l
OneOf-All [] = tt
OneOf-All (x ∷ l) = (inl refl, All-map (λ a h. inr h) l (OneOf-All l))

-- The directories on the way to a path below `d` lie below it too, or are `d` and those above.
pub ancestors-Near : (d p : Bytes) → IsBelow d p → All (Near d) (ancestors p)
unfolding ancestors Cut
ancestors-Near d p (rest, e, names) =
    subst (λ z. All (Near d) (prefixes z [])) (sym e)
      (subst (All (Near d)) (sym (prefixes-append (clean d) rest [])) (
        All-append (Near d) (prefixes (clean d) []) (prefixes rest (clean d ++ (slash ∷ [])))
          (All-map (λ a h. inr h) (prefixes (clean d) []) (OneOf-All (prefixes (clean d) [])))
          (All-map below (prefixes rest (clean d ++ (slash ∷ []))) (prefixes-Cut rest _))))
  where
    below : (a : Bytes) → Cut rest (clean d ++ (slash ∷ [])) a → Near d a
    below a (b, q, inl f) = inl (
      b,
      q ∙ append_assoc (clean d) (slash ∷ []) b,
      subst (λ z. All IsName (split z)) (sym f) names,
    )
    below a (b, q, inr (r, f)) = inl (
      b,
      q ∙ append_assoc (clean d) (slash ∷ []) b,
      All-append_left IsName (split b) (split r)
          (subst (All IsName) (ap split f ∙ split-append b r) names),
    )

pub ancestors_self-Near : (d : Bytes) → All (Near d) (ancestors (clean d))
unfolding ancestors
ancestors_self-Near d =
    All-map (λ a h. inr h) (ancestors (clean d)) (OneOf-All (ancestors (clean d)))
