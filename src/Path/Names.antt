-- ===== src/Path/Names.antt =====
-- Paths made below a directory by `Join` with plain names.
use unpacker.Base.{
  ℕ, ◌≡◌, ◌≢◌, ◌==◌, refl, sym, ap, subst, ◌∙◌, Bool, true, false, List, [], ◌∷◌, ◌++◌, reverse,
  append_assoc, All, All-append,
}
use unpacker.Base.Text.{Bytes, bytes_eq_refl}
use unpacker.Path.{slash, split_from, split, join_slash, is_rooted, clean, join, join_all, IsName}
use unpacker.Path.Clean.{
  clean-clean, NoSlash, split-NoSlash, split-All, cleaned_stack, reverse-All, reverse-ne-nil,
}
use unpacker.Path.Confine.{not-nil_append, EndsInName, IsBelow, split-append}
use unpacker.Path.Below.{walk-names, cleaned_stack-append, clean-ne-nil, IsBelow-of_names}

-- One component, which names an entry of a directory.
abbrev pub IsPlain : Bytes → Type 0
IsPlain c = IsName c × NoSlash c

split_from-ne-nil : (s cur : Bytes) → split_from s cur ≢ []
unfolding split_from
split_from-ne-nil [] cur = λ h. cc
split_from-ne-nil (c ∷ s) cur = go (c == slash) (split_from-ne-nil s)
  where
    go :
        (b : Bool)
        → ((cur : Bytes) → split_from s cur ≢ [])
        → (elim b [ true ↦ cur ∷ split_from s [] | false ↦ split_from s (cur ++ (c ∷ [])) ]) ≢ []
    go true ih = λ h. cc
    go false ih = ih (cur ++ (c ∷ []))

-- Behind a directory stand names only.
pub clean-IsBelow :
    (d t : Bytes) → EndsInName d → All IsName (split t) → IsBelow d (clean (clean d ++ (slash ∷ t)))
clean-IsBelow d t h names =
    let (root, stack) = cleaned_stack-append d t h in
    go (split t) (unfold split in split_from-ne-nil t []) root
      (stack ∙ walk-names (is_rooted d) (split t) (cleaned_stack d) names) names (split-All t)
  where
    y : Bytes
    y = clean d ++ (slash ∷ t)

    behind :
        (l : List Bytes)
        → l ≢ []
        → is_rooted y ≡ is_rooted d
        → cleaned_stack y ≡ l ++ cleaned_stack d
        → All IsName l
        → All NoSlash l
        → IsBelow d (clean y)
    behind [] filled root stack hn hs = absurd (filled refl)
    behind (x ∷ xs) filled root stack hn hs = IsBelow-of_names d y x xs h root stack hn hs

    go :
        (l : List Bytes)
        → l ≢ []
        → is_rooted y ≡ is_rooted d
        → cleaned_stack y ≡ reverse l ++ cleaned_stack d
        → All IsName l
        → All NoSlash l
        → IsBelow d (clean y)
    go [] filled root stack hn hs = absurd (filled refl)
    go (x ∷ l) filled root stack hn hs =
        behind (reverse (x ∷ l)) (reverse-ne-nil x l) root stack (reverse-All IsName (x ∷ l) hn)
          (reverse-All NoSlash (x ∷ l) hs)

-- `Join` with a plain name stays below.
pub join-IsBelow :
    (d p name : Bytes) → EndsInName d → IsBelow d p → IsPlain name → IsBelow d (join p name)
unfolding join
join-IsBelow d [] name h (rest, e, names) plain = not-nil_append (clean d) slash rest e
join-IsBelow d (c ∷ p) [] h below (plain, solid) = cc (plain.0, bytes_eq_refl [])
join-IsBelow d (c ∷ p) (b ∷ name) h (rest, e, names) (plain, solid) =
    let same : (c ∷ p) ++ (slash ∷ b ∷ name) ≡ clean d ++ (slash ∷ (rest ++ (slash ∷ b ∷ name))) =
      ap (λ s. s ++ (slash ∷ b ∷ name)) e
      ∙ append_assoc (clean d) (slash ∷ rest) (slash ∷ b ∷ name) in
    subst (λ s. IsBelow d (clean s)) (sym same)
      (clean-IsBelow d (rest ++ (slash ∷ b ∷ name)) h (
        subst (All IsName) (sym (split-append rest (b ∷ name))) (
          All-append IsName (split rest) (split (b ∷ name)) names
            (subst (All IsName) (sym (split-NoSlash (b ∷ name) solid)) (plain, tt)))))

-- Two plain names below a cleaned directory.
pub join_all-IsBelow :
    (d a b : Bytes)
    → clean d ≡ d
    → EndsInName d
    → IsPlain a
    → IsPlain b
    → IsBelow d (join_all (d ∷ a ∷ b ∷ []))
unfolding join_all join_slash
join_all-IsBelow [] a b c h pa pb = absurd (clean-ne-nil [] h c)
join_all-IsBelow (x ∷ d) a b c h (pa, sa) (pb, sb) =
    subst (λ e. IsBelow (x ∷ d) (clean (e ++ (slash ∷ (a ++ (slash ∷ b)))))) c
      (clean-IsBelow (x ∷ d) (a ++ (slash ∷ b)) h (
        subst (All IsName)
          (sym (
            split-append a b
            ∙ ap (λ l. l ++ split b) (split-NoSlash a sa)
            ∙ ap (λ l. (a ∷ []) ++ l) (split-NoSlash b sb)))
          (pa, (pb, tt))))

-- What `Join` gives is clean.
pub clean-join : (a : Bytes) (c : ℕ) (s : Bytes) → clean (join a (c ∷ s)) ≡ join a (c ∷ s)
unfolding join
clean-join [] c s = clean-clean (c ∷ s)
clean-join (b ∷ a) c s = clean-clean ((b ∷ a) ++ (slash ∷ c ∷ s))

-- One plain name in a cleaned directory.
pub join_self-IsBelow :
    (d name : Bytes) → clean d ≡ d → EndsInName d → IsPlain name → IsBelow d (join d name)
unfolding join
join_self-IsBelow [] name c h plain = absurd (clean-ne-nil [] h c)
join_self-IsBelow (x ∷ d) [] c h (plain, solid) = cc (plain.0, bytes_eq_refl [])
join_self-IsBelow (x ∷ d) (b ∷ name) c h (plain, solid) =
    subst (λ e. IsBelow (x ∷ d) (clean (e ++ (slash ∷ b ∷ name)))) c
      (clean-IsBelow (x ∷ d) (b ∷ name) h
        (subst (All IsName) (sym (split-NoSlash (b ∷ name) solid)) (plain, tt)))
