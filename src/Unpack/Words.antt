-- ===== src/Unpack/Words.antt =====
-- The words of a media type, as they stand in it.
use unpacker.Base.{
  All, ◌<◌, ℕ, ◌≡◌, ◌≢◌, ◌↔◌, inl, inr, refl, sym, ap, subst, ◌∙◌, arith, true, false, List, [],
  ◌∷◌, ◌++◌, append_assoc, append-nil, All-append, Bool-cases,
}
use unpacker.Base.Text.{Bytes, contains_byte}
use unpacker.Base.Runes.{runes, runes_from}
use unpacker.Path.{slash}
use unpacker.Unpack.MediaType.{
  is_separator, flush_run, fields_from, media_type_components, equal_fold, equal_runes, any_fold,
  type_matches,
}
use unpacker.Unpack.Components.{EndsWord, StartsWord, IsPlain, IsWord, type_matches-IsWord}

-- Two runs without separators, each followed by a separator or the end, are the same.
plain_prefix :
    (p q r t : Bytes)
    → IsPlain p
    → IsPlain q
    → StartsWord r
    → StartsWord t
    → p ++ r ≡ q ++ t
    → p ≡ q
plain_prefix [] [] r t hp hq sr st e = refl
plain_prefix [] (b ∷ q) r t hp (h, hq) (inl n) st e = cc
plain_prefix [] (b ∷ q) r t hp (h, hq) (inr (c, k, n, s)) st e =
    let same : c ≡ b = ground (arith, n, e) in cc
plain_prefix (a ∷ p) [] r t (h, hp) hq sr (inl n) e = cc
plain_prefix (a ∷ p) [] r t (h, hp) hq sr (inr (c, k, n, s)) e =
    let same : c ≡ a = ground (arith, n, e) in cc
plain_prefix (a ∷ p) (b ∷ q) r t (h, hp) (k, hq) sr st e =
    let rest = plain_prefix p q r t hp hq sr st (ground (arith, e)) in
    let first : a ≡ b = ground (arith, e) in ground (arith, rest, first)

-- What ends with a separator is longer than a run without one.
past_run :
    (k : Bytes) (y : ℕ) (m run : Bytes) (c : ℕ) (s : Bytes)
    → is_separator y ≡ true
    → IsPlain run
    → (k ++ (y ∷ [])) ++ m ≡ run ++ (c ∷ s)
    → (l : Bytes) × EndsWord l × (s ≡ l ++ m)
past_run [] y m [] c s sy h e = ([], inl refl, ground (arith, e))
past_run [] y m (a ∷ run) c s sy (h, hs) e = let same : y ≡ a = ground (arith, e) in cc
past_run (b ∷ k) y m [] c s sy h e = (k ++ (y ∷ []), inr (k, y, refl, sy), sym (ground (arith, e)))
past_run (b ∷ k) y m (a ∷ run) c s sy (h, hs) e = past_run k y m run c s sy hs (ground (arith, e))

no_separator :
    (k : Bytes) (y : ℕ) (m run : Bytes)
    → is_separator y ≡ true
    → IsPlain run
    → run ≡ (k ++ (y ∷ [])) ++ m
    → ⊥
no_separator [] y m [] sy h e = cc
no_separator [] y m (a ∷ run) sy (h, hs) e = let same : a ≡ y = ground (arith, e) in cc
no_separator (b ∷ k) y m [] sy h e = cc
no_separator (b ∷ k) y m (a ∷ run) sy (h, hs) e = no_separator k y m run sy hs (ground (arith, e))

flush_run-any_fold :
    (word run : Bytes) (rest : List Bytes)
    → any_fold word rest ≡ true
    → any_fold word (flush_run run rest) ≡ true
unfolding any_fold
flush_run-any_fold word [] rest h = h
flush_run-any_fold word (c ∷ run) rest h = ground arith

first_run-any_fold :
    (word run : Bytes) (rest : List Bytes)
    → run ≢ []
    → equal_fold run word ≡ true
    → any_fold word (flush_run run rest) ≡ true
unfolding any_fold
first_run-any_fold word [] rest n h = absurd (n refl)
first_run-any_fold word (c ∷ run) rest n h = rw h refl

-- A word of the text that is being read is found.
fields_from-any_fold :
    (word part s run l r : Bytes)
    → part ≢ []
    → IsPlain part
    → equal_fold part word ≡ true
    → IsPlain run
    → EndsWord l
    → StartsWord r
    → run ++ s ≡ l ++ (part ++ r)
    → any_fold word (fields_from s run) ≡ true
unfolding fields_from
fields_from-any_fold word part [] run l r n hp h hr (inl e) sr q =
    let same : part ≡ run =
      plain_prefix part run r [] hp hr sr (inl refl) (sym (q ∙ ap (λ z. z ++ (part ++ r)) e)) in
    first_run-any_fold word run [] (subst (λ z. z ≢ []) same n)
      (subst (λ z. equal_fold z word ≡ true) same h)
fields_from-any_fold word part [] run l r n hp h hr (inr (k, y, e, sy)) sr q = absurd (
    no_separator k y (part ++ r) run sy hr
      (sym (append-nil run) ∙ q ∙ ap (λ z. z ++ (part ++ r)) e))
fields_from-any_fold word part (c ∷ s) run l r n hp h hr el sr q =
    elim (Bool-cases (is_separator c)) [
      | inl sc ↦ rw (sc, fields_from) (ended sc el (fields_from-any_fold word part s []))
      | inr sc ↦
          rw (sc, fields_from)
            (fields_from-any_fold word part s (run ++ (c ∷ [])) l r n hp h
              (All-append _ run (c ∷ []) hr (sc, tt)) el sr (append_assoc run (c ∷ []) s ∙ q))
    ]
  where
    ended :
        is_separator c ≡ true
        → EndsWord l
        → ((l r : Bytes)
            → part ≢ []
            → IsPlain part
            → equal_fold part word ≡ true
            → IsPlain []
            → EndsWord l
            → StartsWord r
            → [] ++ s ≡ l ++ (part ++ r)
            → any_fold word (fields_from s []) ≡ true)
        → any_fold word (flush_run run (fields_from s [])) ≡ true
    ended sc (inl e) ih =
        let same : part ≡ run =
          plain_prefix part run r (c ∷ s) hp hr sr (inr (c, s, refl, sc))
            (sym (q ∙ ap (λ z. z ++ (part ++ r)) e)) in
        first_run-any_fold word run (fields_from s []) (subst (λ z. z ≢ []) same n)
          (subst (λ z. equal_fold z word ≡ true) same h)
    ended sc (inr (k, y, e, sy)) ih =
        let (l', el', rest) =
          past_run k y (part ++ r) run c s sy hr (sym (q ∙ ap (λ z. z ++ (part ++ r)) e)) in
        flush_run-any_fold word run (fields_from s []) (ih l' r n hp h tt el' sr rest)

not_empty : (a : ℕ) (part : Bytes) → equal_fold (a ∷ part) [] ≡ true → ⊥
unfolding equal_fold equal_runes runes runes_from
not_empty a part h = cc

abbrev pub IsAscii : Bytes → Type 0
IsAscii = All (λ c. c < 128)

-- A bare ASCII word matches a media type, which may be any text, exactly where, up to Unicode case
-- folding, it is one whole word of it.
pub type_matches_iff :
    (text word : Bytes)
    → contains_byte slash word ≡ false
    → IsAscii word
    → (type_matches text word ≡ true)
      ↔ ((part : Bytes) × IsWord text part × (equal_fold part word ≡ true))
type_matches_iff text word bare _ =
    (type_matches-IsWord text word bare, λ (part, found, h). matches word bare part found h)
  where
    matches :
        (word : Bytes)
        → contains_byte slash word ≡ false
        → (part : Bytes) → IsWord text part
        → equal_fold part word ≡ true
        → type_matches text word ≡ true
    matches [] bare [] (n, p, l, r, e, el, sr) h = absurd (n refl)
    matches [] bare (a ∷ part) (n, p, l, r, e, el, sr) h = absurd (not_empty a part h)
    matches (c ∷ word) bare part (n, p, l, r, e, el, sr) h =
        unfold type_matches media_type_components in
        rw bare (fields_from-any_fold (c ∷ word) part text [] l r n p h tt el sr e)
