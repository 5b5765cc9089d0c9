-- ===== src/Path/Below.antt =====
-- Paths made below a directory: by `Join` with a name, and by `Dir` of a path below it.
use mathlib.Core.List.{reverse-cons, reverse-append, reverse-reverse}
use unpacker.Base.{◌≡◌, ◌≢◌, refl, sym, ap, subst, ◌∙◌, ◌⊎◌, inl, inr, Bool, true, false, arith}
use unpacker.Base.{List, [], ◌∷◌, ◌++◌, reverse, append_assoc, All, All-append_left, Bool-cases}
use unpacker.Base.{◌==◌, All-append}
use unpacker.Base.Text.{Bytes, bytes_eq, bytes_eq_refl}
use unpacker.Path.{slash, split_from, split, join_slash, walk, push, is_rooted, clean, render}
use unpacker.Path.{dir, directory, IsName}
use unpacker.Path.Clean.{NoSlash, split-NoSlash, split-All, cleaned_stack}
use unpacker.Path.Clean.{split-clean, cleaned_stack-clean, is_rooted-clean, walk-append, push-name}
use unpacker.Path.Clean.{
  split-join_slash_any, reverse-ne-nil, clean-eq-render, stack_parts, reverse-All,
}
use unpacker.Path.Confine.{EndsInName, IsBelow, split-append, stack_parts-cons}

-- Names are put onto the stack one by one.
pub walk-names :
    (rooted : Bool) (xs st : List Bytes) → All IsName xs → walk rooted xs st ≡ reverse xs ++ st
unfolding walk
walk-names rooted [] st _ = refl
walk-names rooted (x ∷ xs) st (h, hs) =
    ap (walk rooted xs) (push-name rooted x st h)
    ∙ walk-names rooted xs (x ∷ st) hs
    ∙ sym (append_assoc (reverse xs) (x ∷ []) st)
    ∙ ap (λ l. l ++ st) (sym (reverse-cons x xs))

join_slash-append :
    (x : Bytes) (xs : List Bytes) (y : Bytes) (ys : List Bytes)
    → join_slash ((x ∷ xs) ++ (y ∷ ys)) ≡ join_slash (x ∷ xs) ++ (slash ∷ join_slash (y ∷ ys))
unfolding join_slash
join_slash-append x [] y ys = refl
join_slash-append x (x' ∷ xs) y ys =
    ap (λ l. x ++ (slash ∷ l)) (join_slash-append x' xs y ys)
    ∙ sym (append_assoc x (slash ∷ join_slash (x' ∷ xs)) (slash ∷ join_slash (y ∷ ys)))

pub join_slash-append_any :
    (xs ys : List Bytes)
    → xs ≢ []
    → ys ≢ []
    → join_slash (xs ++ ys) ≡ join_slash xs ++ (slash ∷ join_slash ys)
join_slash-append_any [] ys h _ = absurd (h refl)
join_slash-append_any (x ∷ xs) [] _ k = absurd (k refl)
join_slash-append_any (x ∷ xs) (y ∷ ys) _ _ = join_slash-append x xs y ys

join_slash-reverse :
    (n : Bytes) (ns : List Bytes) (t : Bytes) (st : List Bytes)
    → join_slash (reverse ((n ∷ ns) ++ (t ∷ st)))
      ≡ join_slash (reverse (t ∷ st)) ++ (slash ∷ join_slash (reverse (n ∷ ns)))
join_slash-reverse n ns t st =
    ap join_slash (reverse-append (n ∷ ns) (t ∷ st))
    ∙ join_slash-append_any (reverse (t ∷ st)) (reverse (n ∷ ns)) (reverse-ne-nil t st)
        (reverse-ne-nil n ns)

render-append :
    (rooted : Bool) (n : Bytes) (ns : List Bytes) (t : Bytes) (st : List Bytes)
    → render rooted ((n ∷ ns) ++ (t ∷ st))
      ≡ render rooted (t ∷ st) ++ (slash ∷ join_slash (reverse (n ∷ ns)))
unfolding render
render-append true n ns t st = ap (λ l. slash ∷ l) (join_slash-reverse n ns t st)
render-append false n ns t st = join_slash-reverse n ns t st

-- A path whose components are those of a directory and at least one name behind them.
pub IsBelow-of_names :
    (d y : Bytes) (x : Bytes) (xs : List Bytes)
    → EndsInName d
    → is_rooted y ≡ is_rooted d
    → cleaned_stack y ≡ (x ∷ xs) ++ cleaned_stack d
    → All IsName (x ∷ xs)
    → All NoSlash (x ∷ xs)
    → IsBelow d (clean y)
IsBelow-of_names d y x xs (t, st, e, n) r q hn hs = (join_slash (reverse (x ∷ xs)), text, parts)
  where
    text : clean y ≡ clean d ++ (slash ∷ join_slash (reverse (x ∷ xs)))
    text =
        clean-eq-render y
        ∙ ap (λ b. render b (cleaned_stack y)) r
        ∙ ap (render (is_rooted d)) (q ∙ ap (λ l. (x ∷ xs) ++ l) e)
        ∙ render-append (is_rooted d) x xs t st
        ∙ ap (λ l. render (is_rooted d) l ++ (slash ∷ join_slash (reverse (x ∷ xs)))) (sym e)
        ∙ ap (λ l. l ++ (slash ∷ join_slash (reverse (x ∷ xs)))) (sym (clean-eq-render d))

    parts : All IsName (split (join_slash (reverse (x ∷ xs))))
    parts =
        subst (All IsName)
          (sym (
            split-join_slash_any (reverse (x ∷ xs)) (reverse-ne-nil x xs)
              (reverse-All NoSlash (x ∷ xs) hs)))
          (reverse-All IsName (x ∷ xs) hn)

-- The same with any number of names.
IsBelow-of_stack :
    (d y : Bytes) (names : List Bytes)
    → EndsInName d
    → is_rooted y ≡ is_rooted d
    → cleaned_stack y ≡ names ++ cleaned_stack d
    → All IsName names
    → All NoSlash names
    → (clean y ≡ clean d) ⊎ IsBelow d (clean y)
IsBelow-of_stack d y [] h r q _ _ = inl (
    clean-eq-render y
    ∙ ap (λ b. render b (cleaned_stack y)) r
    ∙ ap (render (is_rooted d)) q
    ∙ sym (clean-eq-render d))
IsBelow-of_stack d y (x ∷ xs) h r q hn hs = inr (IsBelow-of_names d y x xs h r q hn hs)

pub clean-ne-nil : (d : Bytes) → EndsInName d → clean d ≢ []
unfolding split
clean-ne-nil d (t, st, e, n) h =
    let (U, q) = stack_parts-cons (is_rooted d) t st in
    let parts : [] ∷ [] ≡ t ∷ U =
      ap reverse (ap split (sym h) ∙ split-clean d)
      ∙ reverse-reverse _
      ∙ ap (stack_parts (is_rooted d)) e
      ∙ q in
    let same : [] ≡ t = ground arith in
    cc (subst (λ c. bytes_eq c [] ≡ false) (sym same) n.0, bytes_eq_refl [])

is_rooted-append : (a b : Bytes) → a ≢ [] → is_rooted (a ++ b) ≡ is_rooted a
unfolding is_rooted
is_rooted-append [] b h = absurd (h refl)
is_rooted-append (c ∷ a) b h = refl

-- The components of a text behind a cleaned directory and a slash are walked from the directory's.
pub cleaned_stack-append :
    (d t : Bytes)
    → EndsInName d
    → (is_rooted (clean d ++ (slash ∷ t)) ≡ is_rooted d)
      × (cleaned_stack (clean d ++ (slash ∷ t)) ≡ walk (is_rooted d) (split t) (cleaned_stack d))
cleaned_stack-append d t h = (root, stack)
  where
    root : is_rooted (clean d ++ (slash ∷ t)) ≡ is_rooted d
    root = is_rooted-append (clean d) (slash ∷ t) (clean-ne-nil d h) ∙ is_rooted-clean d

    stack : cleaned_stack (clean d ++ (slash ∷ t)) ≡ walk (is_rooted d) (split t) (cleaned_stack d)
    stack =
        ap (λ b. walk b (split (clean d ++ (slash ∷ t))) []) root
        ∙ ap (λ l. walk (is_rooted d) l []) (split-append (clean d) t)
        ∙ walk-append (is_rooted d) (split (clean d)) (split t) []
        ∙ ap (λ b. walk (is_rooted d) (split t) (walk b (split (clean d)) []))
            (sym (is_rooted-clean d))
        ∙ ap (walk (is_rooted d) (split t)) (cleaned_stack-clean d)

directory-append :
    (s t cur : Bytes) → directory (s ++ (slash ∷ t)) cur ≡ cur ++ (s ++ (slash ∷ directory t []))
unfolding directory
directory-append [] t cur = refl
directory-append (c ∷ s) t cur = elim (Bool-cases (c == slash)) [
  | inl e ↦ ground (arith, directory-append s t [])
  | inr e ↦
      rw (e, directory)
        (directory-append s t (cur ++ (c ∷ []))
          ∙ append_assoc cur (c ∷ []) (s ++ (slash ∷ directory t [])))
]

-- The components of a path's directory are those of the path without the last.
split-directory :
    (s cur : Bytes)
    → NoSlash cur
    → (xs : List Bytes) × (l : Bytes) × (split_from s cur ≡ xs ++ (l ∷ []))
      × (split (directory s cur) ≡ xs ++ ([] ∷ []))
unfolding directory split_from
split-directory [] cur h = ([], cur, refl, unfold split in refl)
split-directory (c ∷ s) cur h = elim (Bool-cases (c == slash)) [
  | inl e ↦
      let (xs, l, p, q) = split-directory s [] tt in
      (
        cur ∷ xs,
        l,
        rw (e, split_from) (ap (λ z. cur ∷ z) p),
        rw (e, directory)
            (split-append cur (directory s [])
              ∙ ap (λ z. z ++ split (directory s [])) (split-NoSlash cur h)
              ∙ ap (λ z. cur ∷ z) q),
      )
  | inr e ↦
      let (xs, l, p, q) =
        split-directory s (cur ++ (c ∷ [])) (All-append _ cur (c ∷ []) h (e, tt)) in
      (xs, l, rw (e, split_from) p, rw (e, directory) q)
]

-- `Dir` of a path below a directory is that directory or lies below it.
pub dir-IsBelow : (d p : Bytes) → EndsInName d → IsBelow d p → (dir p ≡ clean d) ⊎ IsBelow d (dir p)
unfolding dir
dir-IsBelow d p h (rest, q, names) =
    let (xs, l, e, f) = split-directory rest [] tt in
    let (root, stack) = cleaned_stack-append d (directory rest []) h in
    let y : Bytes = clean d ++ (slash ∷ directory rest []) in
    let text : directory p [] ≡ y =
      ap (λ z. directory z []) q ∙ directory-append (clean d) rest [] in
    let filled : All IsName xs =
      All-append_left IsName xs (l ∷ []) (subst (All IsName) (unfold split in e) names) in
    let solid : All NoSlash xs =
      All-append_left NoSlash xs (l ∷ [])
        (subst (All NoSlash) (unfold split in e) (split-All rest)) in
    let walked : cleaned_stack y ≡ reverse xs ++ cleaned_stack d =
      stack
      ∙ ap (λ z. walk (is_rooted d) z (cleaned_stack d)) f
      ∙ walk-append (is_rooted d) xs ([] ∷ []) (cleaned_stack d)
      ∙ ap (walk (is_rooted d) ([] ∷ [])) (walk-names (is_rooted d) xs (cleaned_stack d) filled)
      ∙ unfold walk push bytes_eq in refl in
    subst (λ z. (clean z ≡ clean d) ⊎ IsBelow d (clean z)) (sym text)
      (IsBelow-of_stack d y (reverse xs) h root walked (reverse-All IsName xs filled)
        (reverse-All NoSlash xs solid))
