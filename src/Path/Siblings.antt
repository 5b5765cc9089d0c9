-- ===== src/Path/Siblings.antt =====
-- Entries of one directory, by their joined paths.
use mathlib.Core.List.{reverse-cons}
use unpacker.Base.{
  ℕ, ◌≡◌, refl, sym, ap, ◌∙◌, Bool, true, false, List, [], ◌∷◌, ◌++◌, reverse, append_assoc, ◌==◌,
}
use unpacker.Base.Text.{Bytes, bytes_eq, bytes_eq_refl}
use unpacker.Path.{slash, split, join_slash, walk, push, is_rooted, clean, render, join}
use unpacker.Path.Clean.{
  split-NoSlash, walk-append, push-name, reverse-ne-nil, cleaned_stack, clean-eq-render,
}
use unpacker.Path.Confine.{split-append}
use unpacker.Path.Below.{join_slash-append_any}
use unpacker.Path.Names.{IsPlain}
use unpacker.System.Disk.{within}
use unpacker.System.Moved.{within-append, bytes_eq-append}

-- All that stands before the last component.
before : Bool → List Bytes → Bytes
before true [] = slash ∷ []
before false [] = []
before true (t ∷ st) = slash ∷ (join_slash (reverse (t ∷ st)) ++ (slash ∷ []))
before false (t ∷ st) = join_slash (reverse (t ∷ st)) ++ (slash ∷ [])

join_slash-last :
    (t : Bytes) (st : List Bytes) (n : Bytes)
    → join_slash (reverse (n ∷ t ∷ st)) ≡ (join_slash (reverse (t ∷ st)) ++ (slash ∷ [])) ++ n
join_slash-last t st n =
    ap join_slash (reverse-cons n (t ∷ st))
    ∙ join_slash-append_any (reverse (t ∷ st)) (n ∷ []) (reverse-ne-nil t st) (λ h. cc)
    ∙ unfold join_slash in sym (append_assoc (join_slash (reverse (t ∷ st))) (slash ∷ []) n)

render-last : (r : Bool) (st : List Bytes) (n : Bytes) → render r (n ∷ st) ≡ before r st ++ n
unfolding render before join_slash
render-last true [] n = refl
render-last false [] n = refl
render-last true (t ∷ st) n = ap (λ s. slash ∷ s) (join_slash-last t st n)
render-last false (t ∷ st) n = join_slash-last t st n

above : Bytes → Bytes
above a = before (is_rooted a) (cleaned_stack a)

stack-join :
    (r : Bool) (a n : Bytes)
    → IsPlain n
    → walk r (split (a ++ (slash ∷ n))) [] ≡ n ∷ walk r (split a) []
stack-join r a n (h, s) =
    ap (λ l. walk r l []) (split-append a n ∙ ap (λ l. split a ++ l) (split-NoSlash n s))
    ∙ walk-append r (split a) (n ∷ []) []
    ∙ unfold walk in push-name r n (walk r (split a) []) h

stack-cons :
    (b : ℕ) (a n : Bytes)
    → IsPlain n
    → cleaned_stack ((b ∷ a) ++ (slash ∷ n)) ≡ n ∷ cleaned_stack (b ∷ a)
unfolding is_rooted
stack-cons b a n plain = stack-join (b == slash) (b ∷ a) n plain

clean-plain : (c : ℕ) (n : Bytes) → IsPlain (c ∷ n) → clean (c ∷ n) ≡ c ∷ n
clean-plain c n (h, s) =
    let unrooted : is_rooted (c ∷ n) ≡ false = unfold is_rooted in s.0 in
    let pushed : walk false ((c ∷ n) ∷ []) [] ≡ (c ∷ n) ∷ [] =
      unfold walk in push-name false (c ∷ n) [] h in
    let shown : render false ((c ∷ n) ∷ []) ≡ c ∷ n = unfold render join_slash in refl in
    clean-eq-render (c ∷ n)
    ∙ ap (λ r. render r (walk r (split (c ∷ n)) [])) unrooted
    ∙ ap (λ l. render false (walk false l [])) (split-NoSlash (c ∷ n) s)
    ∙ ap (render false) pushed
    ∙ shown

above-nil : above [] ≡ []
unfolding above before split walk push bytes_eq is_rooted
above-nil = refl

join-above : (a n : Bytes) → IsPlain n → join a n ≡ above a ++ n
join-above a [] (h, s) = cc (h.0, bytes_eq_refl [])
join-above [] (c ∷ n) plain =
    unfold join in clean-plain c n plain ∙ ap (λ l. l ++ (c ∷ n)) (sym above-nil)
join-above (b ∷ a) (c ∷ n) plain =
    unfold join in
    clean-eq-render ((b ∷ a) ++ (slash ∷ c ∷ n))
    ∙ ap (render (is_rooted (b ∷ a))) (stack-cons b a (c ∷ n) plain)
    ∙ render-last (is_rooted (b ∷ a)) (cleaned_stack (b ∷ a)) (c ∷ n)
    ∙ unfold above in refl

-- Whether a path is within an entry is a matter of what stands behind their common directory.
pub within-siblings :
    (a n m s : Bytes)
    → IsPlain n
    → IsPlain m
    → within (join a n) (join a m ++ s) ≡ within n (m ++ s)
within-siblings a n m s hn hm =
    ap (λ z. within z (join a m ++ s)) (join-above a n hn)
    ∙ ap (λ z. within (above a ++ n) (z ++ s)) (join-above a m hm)
    ∙ ap (within (above a ++ n)) (append_assoc (above a) m s)
    ∙ within-append (above a) n (m ++ s)

-- Entries of one directory are the same path where they have the same name.
pub bytes_eq-siblings :
    (a n m : Bytes) → IsPlain n → IsPlain m → bytes_eq (join a n) (join a m) ≡ bytes_eq n m
bytes_eq-siblings a n m hn hm =
    ap (λ z. bytes_eq z (join a m)) (join-above a n hn)
    ∙ ap (bytes_eq (above a ++ n)) (join-above a m hm)
    ∙ bytes_eq-append (above a) n m
