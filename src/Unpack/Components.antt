-- ===== src/Unpack/Components.antt =====
-- The words that `mediaTypeComponents` finds in a media type.
use unpacker.Base.{ℕ, ◌≡◌, ◌≢◌, ◌⊎◌, inl, inr, refl, sym, ap, ◌∙◌, true, false, ◌||◌}
use unpacker.Base.{List, [], ◌∷◌, ◌++◌, append_assoc, All, All-append, Bool-cases, if◌then◌else◌}
use unpacker.Base.Text.{Bytes, contains_byte}
use unpacker.Path.{slash}
use unpacker.Unpack.MediaType.{
  is_separator, flush_run, fields_from, media_type_components, equal_fold, any_fold, type_matches,
}

-- A text that ends, or starts, at a separator or is empty.
abbrev pub EndsWord : Bytes → Type 0
EndsWord l = (l ≡ []) ⊎ ((k : Bytes) × (c : ℕ) × (l ≡ k ++ (c ∷ [])) × (is_separator c ≡ true))

abbrev pub StartsWord : Bytes → Type 0
StartsWord r = (r ≡ []) ⊎ ((c : ℕ) × (k : Bytes) × (r ≡ c ∷ k) × (is_separator c ≡ true))

abbrev pub IsPlain : Bytes → Type 0
IsPlain = All (λ c. is_separator c ≡ false)

-- A whole word of a text: without separators, not empty, and between separators or the ends.
abbrev pub IsWord : Bytes → Bytes → Type 0
IsWord text part =
    (part ≢ [])
    × IsPlain part
    × (l : Bytes) × (r : Bytes) × (text ≡ l ++ (part ++ r))
    × EndsWord l
    × StartsWord r

flush_run-IsWord :
    (text l run r : Bytes) (rest : List Bytes)
    → text ≡ l ++ (run ++ r)
    → EndsWord l
    → IsPlain run
    → StartsWord r
    → All (IsWord text) rest
    → All (IsWord text) (flush_run run rest)
flush_run-IsWord text l [] r rest e el p sr h = h
flush_run-IsWord text l (c ∷ run) r rest e el p sr h = ((λ q. cc, p, l, r, e, el, sr), h)

fields_from-IsWord :
    (text l s run : Bytes)
    → text ≡ l ++ (run ++ s)
    → EndsWord l
    → IsPlain run
    → All (IsWord text) (fields_from s run)
unfolding fields_from
fields_from-IsWord text l [] run e el p = flush_run-IsWord text l run [] [] e el p (inl refl) tt
fields_from-IsWord text l (c ∷ s) run e el p = elim (Bool-cases (is_separator c)) [
  | inl q ↦
      rw (q, fields_from)
        (flush_run-IsWord text l run (c ∷ s) (fields_from s []) e el p (inr (c, s, refl, q)) (
          fields_from-IsWord text ((l ++ run) ++ (c ∷ [])) s []
            (e ∙ sym (append_assoc l run (c ∷ s)) ∙ sym (append_assoc (l ++ run) (c ∷ []) s))
            (inr (l ++ run, c, refl, q)) tt))
  | inr q ↦
      rw (q, fields_from)
        (fields_from-IsWord text l s (run ++ (c ∷ []))
          (e ∙ ap (λ z. l ++ z) (sym (append_assoc run (c ∷ []) s))) el
          (All-append _ run (c ∷ []) p (q, tt)))
]

-- A bare word that matches a media type is, up to letter case, one whole word of it: it is never
-- found inside a longer one.
pub type_matches-IsWord :
    (text word : Bytes)
    → contains_byte slash word ≡ false
    → type_matches text word ≡ true
    → (part : Bytes) × IsWord text part × (equal_fold part word ≡ true)
unfolding type_matches media_type_components any_fold
type_matches-IsWord text [] bare h = cc
type_matches-IsWord text (c ∷ word) bare h =
    found (media_type_components text) (fields_from-IsWord text [] text [] refl (inl refl) tt) (
      ap
        (λ b.
          if b
          then equal_fold text (c ∷ word)
          else any_fold (c ∷ word) (media_type_components text))
        (sym bare)
      ∙ h)
  where
    found :
        (parts : List Bytes)
        → All (IsWord text) parts
        → any_fold (c ∷ word) parts ≡ true
        → (part : Bytes) × IsWord text part × (equal_fold part (c ∷ word) ≡ true)
    found [] a e = cc
    found (part ∷ parts) (a, others) e = elim (Bool-cases (equal_fold part (c ∷ word))) [
      | inl q ↦ (part, a, q)
      | inr q ↦ found parts others (ap (λ b. b || any_fold (c ∷ word) parts) (sym q) ∙ e)
    ]
