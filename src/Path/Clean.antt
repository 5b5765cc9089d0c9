-- ===== src/Path/Clean.antt =====
-- What a cleaned path looks like: its components are names, behind a run of `..` if it is relative.
use mathlib.Core.List.{reverse-cons, reverse-append, concat-ne-nil}
use unpacker.Base.{ℕ, ◌≡◌, ◌≢◌, refl, sym, ap, ◌∙◌, ◌⊎◌, inl, inr, Bool, true, false, arith}
use unpacker.Base.{List, [], ◌∷◌, ◌++◌, reverse, append_assoc, append-nil, All, All-append, ◌==◌}
use unpacker.Base.{Bool-cases, ◌||◌}
use unpacker.Base.Text.{Bytes, bytes_eq, bytes_eq_refl}
use unpacker.Path.{slash, dot, dot_dot, split_from, split, join_slash, is_rooted, back, push, walk}
use unpacker.Path.{render, clean, IsName}

abbrev pub NoSlash : Bytes → Type 0
NoSlash = All (λ b. (b == slash) ≡ false)

-- The text before a slash is split by itself.
pub split_from-append :
    (s t cur : Bytes) → split_from (s ++ (slash ∷ t)) cur ≡ split_from s cur ++ split t
unfolding split
split_from-append [] t cur = refl
split_from-append (c ∷ s) t cur =
    ground (arith, split_from-append s t [], split_from-append s t (cur ++ (c ∷ [])))

pub split_from-NoSlash : (s cur : Bytes) → NoSlash s → split_from s cur ≡ (cur ++ s) ∷ []
unfolding split_from
split_from-NoSlash [] cur _ = rw append-nil
split_from-NoSlash (c ∷ s) cur (hc, hs) =
    rw (hc, split_from) (split_from-NoSlash s (cur ++ (c ∷ [])) hs ∙ rw append_assoc)

pub split-NoSlash : (s : Bytes) → NoSlash s → split s ≡ s ∷ []
unfolding split
split-NoSlash s h = split_from-NoSlash s [] h

pub split_from-All : (s cur : Bytes) → NoSlash cur → All NoSlash (split_from s cur)
unfolding split_from
split_from-All [] cur h = (h, tt)
split_from-All (c ∷ s) cur h = elim (Bool-cases (c == slash)) [
  | inl e ↦ rw (e, split_from) (h, split_from-All s [] tt)
  | inr e ↦ rw (e, split_from) (split_from-All s _ (All-append _ cur (c ∷ []) h (e, tt)))
]

pub split-All : (s : Bytes) → All NoSlash (split s)
unfolding split
split-All s = split_from-All s [] tt

pub split-join_slash :
    (c : Bytes) (cs : List Bytes) → All NoSlash (c ∷ cs) → split (join_slash (c ∷ cs)) ≡ c ∷ cs
unfolding split join_slash
split-join_slash c [] (h, _) = split_from-NoSlash c [] h
split-join_slash c (d ∷ cs) (h, hs) =
    split_from-append c (join_slash (d ∷ cs)) []
    ∙ rw (split_from-NoSlash c [] h, split-join_slash d cs hs)

-- The components of a cleaned path, the last one first.
abbrev pub IsStack : Bool → List Bytes → Type 0
IsStack rooted [] = Unit
IsStack rooted (t ∷ st) =
    (IsName t × NoSlash t × IsStack rooted st)
    ⊎ ((t ≡ dot_dot) × (rooted ≡ false) × All (λ c. c ≡ dot_dot) st)

push-IsStack :
    (rooted : Bool) (c : Bytes) (st : List Bytes)
    → NoSlash c
    → IsStack rooted st
    → IsStack rooted (push rooted c st)
unfolding push
push-IsStack rooted c st h hs = elim (Bool-cases (bytes_eq c [] || bytes_eq c dot)) [
  | inl e ↦ rw e hs
  | inr e ↦ elim (Bool-cases (bytes_eq c dot_dot)) [
    | inl d ↦ rw (e, d) (back-IsStack rooted st hs)
    | inr d ↦ rw (e, d) (inl ((ground arith, ground arith, d), h, hs))
  ]
]
  where
    back-IsStack : (r : Bool) (st : List Bytes) → IsStack r st → IsStack r (back r st)
    back-IsStack true [] _ = tt
    back-IsStack false [] _ = inr (refl, refl, tt)
    back-IsStack r (t ∷ st) (inl (n, s, hs)) = rw (n.2, back) hs
    back-IsStack r (t ∷ st) (inr (e, q, hs)) =
        rw (e, bytes_eq_refl dot_dot, back) (inr (refl, q, (refl, hs)))

pub walk-IsStack :
    (rooted : Bool) (cs st : List Bytes)
    → All NoSlash cs
    → IsStack rooted st
    → IsStack rooted (walk rooted cs st)
unfolding walk
walk-IsStack rooted [] st _ h = h
walk-IsStack rooted (c ∷ cs) st (hc, hcs) h =
    walk-IsStack rooted cs (push rooted c st) hcs (push-IsStack rooted c st hc h)

pub walk-append :
    (rooted : Bool) (xs ys st : List Bytes)
    → walk rooted (xs ++ ys) st ≡ walk rooted ys (walk rooted xs st)
unfolding walk
walk-append rooted [] ys st = refl
walk-append rooted (x ∷ xs) ys st = walk-append rooted xs ys (push rooted x st)

pub push-name : (rooted : Bool) (c : Bytes) (st : List Bytes) → IsName c → push rooted c st ≡ c ∷ st
unfolding push
push-name rooted c st (e, d, dd) = rw (e, d, dd)

push-dot_dot : (st : List Bytes) → All (λ c. c ≡ dot_dot) st → push false dot_dot st ≡ dot_dot ∷ st
unfolding push back bytes_eq
push-dot_dot [] _ = refl
push-dot_dot (t ∷ st) (e, _) = rw e

walk-snoc :
    (rooted : Bool) (t : Bytes) (st : List Bytes)
    → walk rooted (reverse st) [] ≡ st
    → push rooted t st ≡ t ∷ st
    → walk rooted (reverse (t ∷ st)) [] ≡ t ∷ st
walk-snoc rooted t st h p =
    ap (λ l. walk rooted l []) (reverse-cons t st)
    ∙ walk-append rooted (reverse st) (t ∷ []) []
    ∙ ap (walk rooted (t ∷ [])) h
    ∙ unfold walk in p

walk-reverse_dots : (st : List Bytes) → All (λ c. c ≡ dot_dot) st → walk false (reverse st) [] ≡ st
walk-reverse_dots [] _ = unfold walk in refl
walk-reverse_dots (t ∷ st) (e, hs) =
    walk-snoc false t st (walk-reverse_dots st hs) (rw e (push-dot_dot st hs))

-- Walking over the components of a cleaned path gives them back.
pub walk-reverse :
    (rooted : Bool) (st : List Bytes) → IsStack rooted st → walk rooted (reverse st) [] ≡ st
walk-reverse rooted [] _ = unfold walk in refl
walk-reverse rooted (t ∷ st) (inl (n, _, hs)) =
    walk-snoc rooted t st (walk-reverse rooted st hs) (push-name rooted t st n)
walk-reverse rooted (t ∷ st) (inr (e, q, hs)) = rw q (walk-reverse_dots (t ∷ st) (e, hs))

-- The components that `split` finds in a cleaned path, the last one first.
abbrev pub stack_parts : Bool → List Bytes → List Bytes
stack_parts true [] = [] ∷ [] ∷ []
stack_parts true (t ∷ st) = (t ∷ st) ++ ([] ∷ [])
stack_parts false [] = dot ∷ []
stack_parts false (t ∷ st) = t ∷ st

IsStack-NoSlash : (rooted : Bool) (st : List Bytes) → IsStack rooted st → All NoSlash st
IsStack-NoSlash rooted [] _ = tt
IsStack-NoSlash rooted (t ∷ st) (inl (_, h, hs)) = (h, IsStack-NoSlash rooted st hs)
IsStack-NoSlash rooted (t ∷ st) (inr (e, q, hs)) = (rw e (refl, (refl, tt)), dots st hs)
  where
    dots : (st : List Bytes) → All (λ c. c ≡ dot_dot) st → All NoSlash st
    dots [] _ = tt
    dots (t ∷ st) (e, hs) = (rw e (refl, (refl, tt)), dots st hs)

pub reverse-All {ℓ κ} : {A : Type ℓ} (P : A → Type κ) (l : List A) → All P l → All P (reverse l)
reverse-All P [] _ = tt
reverse-All P (x ∷ l) (h, hs) =
    rw (reverse-cons x l) (All-append P (reverse l) (x ∷ []) (reverse-All P l hs) (h, tt))

pub split-join_slash_any : (cs : List Bytes) → cs ≢ [] → All NoSlash cs → split (join_slash cs) ≡ cs
split-join_slash_any [] h _ = absurd (h refl)
split-join_slash_any (c ∷ cs) _ hs = split-join_slash c cs hs

pub reverse-ne-nil : (t : Bytes) (st : List Bytes) → reverse (t ∷ st) ≢ []
reverse-ne-nil t st e = concat-ne-nil t (reverse st) (sym (reverse-cons t st) ∙ e)

pub split-render :
    (rooted : Bool) (st : List Bytes)
    → IsStack rooted st
    → split (render rooted st) ≡ reverse (stack_parts rooted st)
unfolding split split_from
split-render true [] _ = unfold render split in refl
split-render false [] _ = unfold render split in refl
split-render false (t ∷ st) h =
    unfold render in
    split-join_slash_any (reverse (t ∷ st)) (reverse-ne-nil t st)
      (reverse-All NoSlash (t ∷ st) (IsStack-NoSlash false (t ∷ st) h))
split-render true (t ∷ st) h =
    unfold render in
    split_from-append [] (join_slash (reverse (t ∷ st))) []
    ∙ ap (λ l. [] ∷ l)
        (split-join_slash_any (reverse (t ∷ st)) (reverse-ne-nil t st)
          (reverse-All NoSlash (t ∷ st) (IsStack-NoSlash true (t ∷ st) h)))
    ∙ sym (reverse-append (t ∷ st) ([] ∷ []))

abbrev pub cleaned_stack : Bytes → List Bytes
cleaned_stack s = walk (is_rooted s) (split s) []

pub cleaned_stack-IsStack : (s : Bytes) → IsStack (is_rooted s) (cleaned_stack s)
cleaned_stack-IsStack s =
    walk-IsStack (is_rooted s) (split s) [] (unfold split in split_from-All s [] tt) tt

pub split-clean :
    (s : Bytes) → split (clean s) ≡ reverse (stack_parts (is_rooted s) (cleaned_stack s))
split-clean s =
    unfold clean in split-render (is_rooted s) (cleaned_stack s) (cleaned_stack-IsStack s)

-- A path is rooted when its first component is empty and not the only one.
abbrev rooted_parts : List Bytes → Bool
rooted_parts (c ∷ d ∷ cs) = bytes_eq c []
rooted_parts _ = false

split_from-open : (s : Bytes) (c : ℕ) (cur : Bytes) → rooted_parts (split_from s (c ∷ cur)) ≡ false
unfolding split_from bytes_eq
split_from-open [] c cur = refl
split_from-open (b ∷ s) c cur = elim (Bool-cases (b == slash)) [
  | inl e ↦ rw (e, split_from) (closed (split_from s []))
  | inr e ↦ rw (e, split_from) (split_from-open s c (cur ++ (b ∷ [])))
]
  where
    closed : (l : List Bytes) → rooted_parts ((c ∷ cur) ∷ l) ≡ false
    closed [] = refl
    closed (d ∷ l) = refl

split_from-cons : (s cur : Bytes) → (c : Bytes) × (cs : List Bytes) × (split_from s cur ≡ c ∷ cs)
unfolding split_from
split_from-cons [] cur = (cur, [], refl)
split_from-cons (b ∷ s) cur = elim (Bool-cases (b == slash)) [
  | inl e ↦ (cur, split_from s [], rw (e, split_from))
  | inr e ↦ let (c, cs, p) = split_from-cons s (cur ++ (b ∷ [])) in (c, cs, rw (e, split_from) p)
]

is_rooted-split : (s : Bytes) → is_rooted s ≡ rooted_parts (split s)
unfolding is_rooted split split_from bytes_eq
is_rooted-split [] = refl
is_rooted-split (b ∷ s) = elim (Bool-cases (b == slash)) [
  | inl e ↦ let (c, cs, p) = split_from-cons s [] in rw (e, split_from, p)
  | inr e ↦ rw (e, split_from) (sym (split_from-open s b []))
]

rooted_parts-filled : (l : List Bytes) → All (λ c. bytes_eq c [] ≡ false) l → rooted_parts l ≡ false
rooted_parts-filled [] _ = refl
rooted_parts-filled (c ∷ []) _ = refl
rooted_parts-filled (c ∷ d ∷ l) (h, _) = h

IsStack-filled :
    (rooted : Bool) (st : List Bytes) → IsStack rooted st → All (λ c. bytes_eq c [] ≡ false) st
unfolding bytes_eq
IsStack-filled rooted [] _ = tt
IsStack-filled rooted (t ∷ st) (inl (n, _, hs)) = (n.0, IsStack-filled rooted st hs)
IsStack-filled rooted (t ∷ st) (inr (e, _, hs)) = (rw e, dots st hs)
  where
    dots : (st : List Bytes) → All (λ c. c ≡ dot_dot) st → All (λ c. bytes_eq c [] ≡ false) st
    dots [] _ = tt
    dots (t ∷ st) (e, hs) = (rw e, dots st hs)

rooted_parts-reverse : (t : Bytes) (st : List Bytes) → rooted_parts ([] ∷ reverse (t ∷ st)) ≡ true
rooted_parts-reverse t st = go (reverse (t ∷ st)) (reverse-ne-nil t st)
  where
    go : (l : List Bytes) → l ≢ [] → rooted_parts ([] ∷ l) ≡ true
    go [] h = absurd (h refl)
    go (c ∷ l) h = unfold bytes_eq in refl

rooted_parts-stack_parts :
    (rooted : Bool) (st : List Bytes)
    → IsStack rooted st
    → rooted_parts (reverse (stack_parts rooted st)) ≡ rooted
unfolding bytes_eq
rooted_parts-stack_parts true [] _ = refl
rooted_parts-stack_parts true (t ∷ st) _ =
    ap rooted_parts (reverse-append (t ∷ st) ([] ∷ [])) ∙ rooted_parts-reverse t st
rooted_parts-stack_parts false [] _ = refl
rooted_parts-stack_parts false (t ∷ st) h =
    rooted_parts-filled (reverse (t ∷ st))
      (reverse-All (λ c. bytes_eq c [] ≡ false) (t ∷ st) (IsStack-filled false (t ∷ st) h))

pub is_rooted-clean : (s : Bytes) → is_rooted (clean s) ≡ is_rooted s
is_rooted-clean s =
    is_rooted-split (clean s)
    ∙ ap rooted_parts (split-clean s)
    ∙ rooted_parts-stack_parts (is_rooted s) (cleaned_stack s) (cleaned_stack-IsStack s)

walk-stack_parts :
    (rooted : Bool) (st : List Bytes)
    → IsStack rooted st
    → walk rooted (reverse (stack_parts rooted st)) [] ≡ st
walk-stack_parts true [] _ = unfold walk push bytes_eq in refl
walk-stack_parts false [] _ = unfold walk push bytes_eq in refl
walk-stack_parts true (t ∷ st) h =
    ap (λ l. walk true l []) (reverse-append (t ∷ st) ([] ∷ []))
    ∙ unfold walk push bytes_eq in walk-reverse true (t ∷ st) h
walk-stack_parts false (t ∷ st) h = walk-reverse false (t ∷ st) h

pub cleaned_stack-clean : (s : Bytes) → cleaned_stack (clean s) ≡ cleaned_stack s
cleaned_stack-clean s =
    rw (is_rooted-clean s, split-clean s)
      (walk-stack_parts (is_rooted s) (cleaned_stack s) (cleaned_stack-IsStack s))

pub clean-eq-render : (s : Bytes) → clean s ≡ render (is_rooted s) (cleaned_stack s)
unfolding clean
clean-eq-render s = refl

-- Cleaning a cleaned path changes nothing.
pub clean-clean : (s : Bytes) → clean (clean s) ≡ clean s
clean-clean s =
    clean-eq-render (clean s)
    ∙ ap (λ r. render r (cleaned_stack (clean s))) (is_rooted-clean s)
    ∙ ap (render (is_rooted s)) (cleaned_stack-clean s)
    ∙ sym (clean-eq-render s)
