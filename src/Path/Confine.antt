-- ===== src/Path/Confine.antt =====
-- The guard of the extraction: a cleaned path that begins with a directory and a slash stays below
-- that directory, when the directory's own last component is a name.
use mathlib.Core.List.{reverse-append, reverse-reverse}
use unpacker.Base.{◌≡◌, refl, sym, ap, ◌∙◌, subst, inl, inr, Bool, true, false, arith}
use unpacker.Base.{List, [], ◌∷◌, ◌++◌, reverse, append_assoc, append-nil, All}
use unpacker.Base.Text.{Bytes, bytes_eq, bytes_eq_refl, has_prefix, has_prefix→append}
use unpacker.Path.{slash, dot_dot, split, walk, is_rooted, clean, join, IsName}
use unpacker.Path.Clean.{
  NoSlash, split-NoSlash, IsStack, stack_parts, cleaned_stack, cleaned_stack-IsStack, split-clean,
}
use unpacker.Path.Clean.{
  cleaned_stack-clean, split_from-append, reverse-All, walk-append, push-name,
}

-- The last component is a name, neither `.` nor `..`.
abbrev pub EndsInName : Bytes → Type 0
EndsInName d = (t : Bytes) × (st : List Bytes) × (cleaned_stack d ≡ t ∷ st) × IsName t

-- The path lies below the directory: behind its name stand names only.
abbrev pub IsBelow : Bytes → Bytes → Type 0
IsBelow d p = (rest : Bytes) × (p ≡ clean d ++ (slash ∷ rest)) × All IsName (split rest)

pub not-nil_append {ℓ κ} :
    {A : Type ℓ} {B : Type κ} (xs : List A) (y : A) (ys : List A) → [] ≡ xs ++ (y ∷ ys) → B
not-nil_append [] y ys e = cc
not-nil_append (x ∷ xs) y ys e = cc

abbrev root_mark : Bool → List Bytes
root_mark true = [] ∷ []
root_mark false = []

dots_have_no_name :
    (L R U : List Bytes) (t : Bytes) (b : Bool)
    → All (λ c. c ≡ dot_dot) L
    → L ++ root_mark b ≡ R ++ (t ∷ U)
    → IsName t
    → b ≡ false
    → ⊥
dots_have_no_name L R U t true hs e n q = cc
dots_have_no_name [] R U t false hs e n q = not-nil_append R t U e
dots_have_no_name (l ∷ L) [] U t false (h, hs) e n q =
    let same : l ≡ t = ground arith in
    let shut : bytes_eq dot_dot dot_dot ≡ false =
      subst (λ c. bytes_eq c dot_dot ≡ false) (sym same ∙ h) n.2 in
    ground (arith, bytes_eq_refl dot_dot)
dots_have_no_name (l ∷ L) (r ∷ R) U t false (h, hs) e n q =
    dots_have_no_name L R U t false hs (ground arith) n refl

names_above :
    (rooted : Bool) (L R U : List Bytes) (t : Bytes)
    → IsStack rooted L
    → L ++ root_mark rooted ≡ R ++ (t ∷ U)
    → IsName t
    → All IsName R
names_above rooted L [] U t h e n = tt
names_above true [] (r ∷ R) U t h e n = not-nil_append R t U (ground arith)
names_above false [] (r ∷ R) U t h e n = cc
names_above rooted (l ∷ L) (r ∷ R) U t (inl (m, _, hs)) e n =
    (subst IsName (ground arith) m, names_above rooted L R U t hs (ground arith) n)
names_above rooted (l ∷ L) (r ∷ R) U t (inr (d, q, hs)) e n =
    absurd (dots_have_no_name L R U t rooted hs (ground arith) n q)

names_above_stack_parts :
    (rooted : Bool) (L R U : List Bytes) (t : Bytes)
    → IsStack rooted L
    → stack_parts rooted L ≡ R ++ (t ∷ U)
    → IsName t
    → All IsName R
names_above_stack_parts true [] [] U t h e n = tt
names_above_stack_parts true [] (r ∷ []) U t h e n =
    let same : t ≡ [] = ground arith in
    cc (subst (λ c. bytes_eq c [] ≡ false) same n.0, bytes_eq_refl [])
names_above_stack_parts true [] (r ∷ r' ∷ R) U t h e n = not-nil_append R t U (ground arith)
names_above_stack_parts false [] [] U t h e n = tt
names_above_stack_parts false [] (r ∷ R) U t h e n = not-nil_append R t U (ground arith)
names_above_stack_parts true (l ∷ L) R U t h e n = names_above true (l ∷ L) R U t h e n
names_above_stack_parts false (l ∷ L) R U t h e n =
    names_above false (l ∷ L) R U t h (append-nil (l ∷ L) ∙ e) n

pub stack_parts-cons :
    (rooted : Bool) (t : Bytes) (st : List Bytes)
    → (U : List Bytes) × (stack_parts rooted (t ∷ st) ≡ t ∷ U)
stack_parts-cons true t st = (st ++ ([] ∷ []), refl)
stack_parts-cons false t st = (st, refl)

pub split-append : (s t : Bytes) → split (s ++ (slash ∷ t)) ≡ split s ++ split t
unfolding split
split-append s t = split_from-append s t []

split-below :
    (d rest : Bytes) (t : Bytes) (st : List Bytes)
    → cleaned_stack d ≡ t ∷ st
    → (U : List Bytes) × (reverse (split (clean d ++ (slash ∷ rest)))
        ≡ reverse (split rest) ++ (t ∷ U))
split-below d rest t st e =
    let (U, q) = stack_parts-cons (is_rooted d) t st in
    (
      U,
      ap reverse (split-append (clean d) rest)
          ∙ ap (λ l. reverse (l ++ split rest)) (split-clean d)
          ∙ reverse-append (reverse (stack_parts (is_rooted d) (cleaned_stack d))) (split rest)
          ∙ ap (λ l. reverse (split rest) ++ l)
              (reverse-reverse _ ∙ ap (stack_parts (is_rooted d)) e ∙ q),
    )

pub has_prefix-IsBelow :
    (d x : Bytes)
    → EndsInName d
    → has_prefix (clean x) (clean d ++ (slash ∷ [])) ≡ true
    → IsBelow d (clean x)
has_prefix-IsBelow d x (t, st, e, n) h =
    let (rest, p) = has_prefix→append (clean x) (clean d ++ (slash ∷ [])) h in
    let q : clean x ≡ clean d ++ (slash ∷ rest) = p ∙ append_assoc (clean d) (slash ∷ []) rest in
    let (U, r) = split-below d rest t st e in
    let parts : stack_parts (is_rooted x) (cleaned_stack x) ≡ reverse (split rest) ++ (t ∷ U) =
      sym (reverse-reverse _)
      ∙ ap reverse (sym (split-clean x))
      ∙ ap (λ s. reverse (split s)) q
      ∙ r in
    let names =
      names_above_stack_parts (is_rooted x) (cleaned_stack x) (reverse (split rest)) U t
        (cleaned_stack-IsStack x) parts n in
    (rest, q, subst (All IsName) (reverse-reverse (split rest)) (reverse-All IsName _ names))

pub clean-EndsInName : (d : Bytes) → EndsInName d → EndsInName (clean d)
clean-EndsInName d (t, st, e, n) = (t, st, cleaned_stack-clean d ∙ e, n)

split-EndsInName :
    (x name : Bytes) (xs : List Bytes) → split x ≡ xs ++ (name ∷ []) → IsName name → EndsInName x
split-EndsInName x name xs e n =
    let below : List Bytes = walk (is_rooted x) xs [] in
    (name, below, ap (λ l. walk (is_rooted x) l []) e ∙ walk_last (is_rooted x) xs, n)
  where
    walk_last : (r : Bool) (xs : List Bytes) → walk r (xs ++ (name ∷ [])) [] ≡ name ∷ walk r xs []
    walk_last r xs =
        walk-append r xs (name ∷ []) [] ∙ unfold walk in push-name r name (walk r xs []) n

-- What is joined with a name ends in it.
pub join-EndsInName : (a name : Bytes) → NoSlash name → IsName name → EndsInName (join a name)
join-EndsInName a [] s n = cc (n.0, bytes_eq_refl [])
join-EndsInName [] (c ∷ name) s n =
    unfold join in
    clean-EndsInName (c ∷ name)
      (split-EndsInName (c ∷ name) (c ∷ name) [] (split-NoSlash (c ∷ name) s) n)
join-EndsInName (d ∷ a) (c ∷ name) s n =
    unfold join in
    clean-EndsInName ((d ∷ a) ++ (slash ∷ c ∷ name)) (
      split-EndsInName ((d ∷ a) ++ (slash ∷ c ∷ name)) (c ∷ name) (split (d ∷ a))
        (split-append (d ∷ a) (c ∷ name)
          ∙ ap (λ l. split (d ∷ a) ++ l) (split-NoSlash (c ∷ name) s))
        n)
