-- ===== src/Referrers/Names.antt =====
-- internal/unpacker/referrers.go: names for files and directories, from what a registry says.
use mathlib.Core.List.{reverse-append, reverse-reverse, cons-ne-nil}
use unpacker.Base.{
  ℕ, zero, suc, ◌≤◌, ◌≡◌, ◌≢◌, refl, sym, ap, subst, ◌∙◌, ◌⊎◌, inl, inr, arith, Bool, true, false,
}
use unpacker.Base.{
  ◌&&◌, ◌||◌, List, [], ◌∷◌, ◌++◌, map, reverse, if◌then◌else◌, length, take, leb, ◌==◌,
}
use unpacker.Base.{All, Bool-cases, length-take}
use unpacker.Base.Text.{Bytes, codes, bytes_eq}
use unpacker.Path.{slash, dot, dot_dot, base, clean, split, last_filled, IsName}
use unpacker.Path.Clean.{reverse-All, NoSlash, split-All}

-- The characters that stay: letters, digits, `.`, `-` and `_`.
unfoldable pub is_kept : ℕ → Bool
is_kept r =
    (leb b'a' r && leb r b'z')
    || ((leb b'A' r && leb r b'Z')
        || ((leb b'0' r && leb r b'9') || (r == b'.' || (r == b'-' || r == b'_'))))

-- In the cut set of `strings.Trim(name, "-.")`.
unfoldable pub is_cut : ℕ → Bool
is_cut r = r == b'-' || r == b'.'

unfoldable pub trim_left : Bytes → Bytes
unfolding is_cut
trim_left [] = []
trim_left (c ∷ s) = if is_cut c then trim_left s else c ∷ s

unfoldable pub trim : Bytes → Bytes
unfolding trim_left
trim s = reverse (trim_left (reverse (trim_left s)))

-- `typeDirName`, on the runes of the artifact type.
unfoldable pub type_dir_name : List ℕ → Bytes
unfolding trim is_kept
type_dir_name runes =
    let name = trim (map (λ r. if is_kept r then r else b'-') runes) in
    if bytes_eq name [] then codes "unknown" else take 100 name

-- `safeFileName`
unfoldable pub safe_file_name : Bytes → Bytes → Bytes
unfolding bytes_eq
safe_file_name name fallback =
    let found = base (clean (slash ∷ name)) in
    if bytes_eq found dot
      || (bytes_eq found dot_dot || (bytes_eq found (slash ∷ []) || bytes_eq found []))
    then fallback
    else found

unfoldable pub first_non_empty : List Bytes → Bytes
first_non_empty [] = []
first_non_empty ([] ∷ values) = first_non_empty values
first_non_empty ((c ∷ s) ∷ values) = c ∷ s

last_filled-NoSlash :
    (found : Bytes) (cs : List Bytes)
    → NoSlash found
    → All NoSlash cs
    → NoSlash (last_filled found cs)
unfolding last_filled
last_filled-NoSlash found [] h _ = h
last_filled-NoSlash found (c ∷ cs) h (hc, hs) = elim (Bool-cases (bytes_eq c [])) [
  | inl e ↦ rw (e, last_filled) (last_filled-NoSlash found cs h hs)
  | inr e ↦ rw (e, last_filled) (last_filled-NoSlash c cs hc hs)
]

base-NoSlash : (s : Bytes) → (base s ≡ slash ∷ []) ⊎ NoSlash (base s)
unfolding base
base-NoSlash [] = inr (refl, tt)
base-NoSlash (c ∷ s) =
    named (bytes_eq found []) found (last_filled-NoSlash [] (split (c ∷ s)) tt (split-All (c ∷ s)))
  where
    found : Bytes
    found = last_filled [] (split (c ∷ s))

    named :
        (b : Bool) (f : Bytes)
        → NoSlash f
        → ((if b then slash ∷ [] else f) ≡ slash ∷ []) ⊎ NoSlash (if b then slash ∷ [] else f)
    named true f h = inl refl
    named false f h = inr h

-- Whatever a registry puts into a title annotation, the file name made of it is either the fallback
-- or one component that names an entry of its directory: no slash, not empty, neither `.` nor `..`.
pub safe_file_name-IsName :
    (name fallback : Bytes)
    → (safe_file_name name fallback ≡ fallback)
      ⊎ (IsName (safe_file_name name fallback) × NoSlash (safe_file_name name fallback))
unfolding safe_file_name
safe_file_name-IsName name fallback = accepted found (base-NoSlash (clean (slash ∷ name)))
  where
    found : Bytes
    found = base (clean (slash ∷ name))

    refused : Bytes → Bool
    refused f = bytes_eq f dot || (bytes_eq f dot_dot || (bytes_eq f (slash ∷ []) || bytes_eq f []))

    kept :
        (f : Bytes) (b : Bool)
        → refused f ≡ b
        → (f ≡ slash ∷ []) ⊎ NoSlash f
        → ((if b then fallback else f) ≡ fallback)
          ⊎ (IsName (if b then fallback else f) × NoSlash (if b then fallback else f))
    kept f true e h = inl refl
    kept f false e (inl root) = cc (rw root at e)
    kept f false e (inr h) = inr ((ground arith, ground arith, ground arith), h)

    accepted :
        (f : Bytes)
        → (f ≡ slash ∷ []) ⊎ NoSlash f
        → ((if refused f then fallback else f) ≡ fallback)
          ⊎ (IsName (if refused f then fallback else f)
              × NoSlash (if refused f then fallback else f))
    accepted f h = kept f (refused f) refl h

-- Every byte that is left is one of the kept characters.
kept_bytes :
    (runes : List ℕ) → All (λ c. is_kept c ≡ true) (map (λ r. if is_kept r then r else b'-') runes)
unfolding is_kept
kept_bytes [] = tt
kept_bytes (r ∷ runes) = (ground arith, kept_bytes runes)

trim_left-All : (P : ℕ → Type 0) (s : Bytes) → All P s → All P (trim_left s)
unfolding trim_left
trim_left-All P [] h = h
trim_left-All P (c ∷ s) (h, hs) = elim (Bool-cases (is_cut c)) [
  | inl e ↦ rw (e, trim_left) (trim_left-All P s hs)
  | inr e ↦ rw (e, trim_left) (h, hs)
]

-- A text that begins with no cut character.
abbrev StartsKept : Bytes → Type 0
StartsKept [] = Unit
StartsKept (c ∷ s) = is_cut c ≡ false

trim_left-StartsKept : (s : Bytes) → StartsKept (trim_left s)
unfolding trim_left
trim_left-StartsKept [] = tt
trim_left-StartsKept (c ∷ s) = elim (Bool-cases (is_cut c)) [
  | inl e ↦ rw (e, trim_left) (trim_left-StartsKept s)
  | inr e ↦ rw (e, trim_left) e
]

trim_left-append : (s : Bytes) → (z : Bytes) × (s ≡ z ++ trim_left s)
unfolding trim_left
trim_left-append [] = ([], refl)
trim_left-append (c ∷ s) = elim (Bool-cases (is_cut c)) [
  | inl e ↦ let (z, q) = trim_left-append s in (c ∷ z, rw (e, trim_left) (ap (λ l. c ∷ l) q))
  | inr e ↦ ([], rw (e, trim_left))
]

StartsKept-prefix : (s t : Bytes) → StartsKept (s ++ t) → StartsKept s
StartsKept-prefix [] t h = tt
StartsKept-prefix (c ∷ s) t h = h

trim-StartsKept : (s : Bytes) → StartsKept (trim s)
unfolding trim
trim-StartsKept s =
    let x : Bytes = trim_left s in
    let (z, q) = trim_left-append (reverse x) in
    let whole : x ≡ reverse (trim_left (reverse x)) ++ reverse z =
      sym (reverse-reverse x) ∙ ap reverse q ∙ reverse-append z (trim_left (reverse x)) in
    StartsKept-prefix _ (reverse z) (subst StartsKept whole (trim_left-StartsKept s))

trim-All : (P : ℕ → Type 0) (s : Bytes) → All P s → All P (trim s)
unfolding trim
trim-All P s h =
    reverse-All P (trim_left (reverse (trim_left s)))
      (trim_left-All P (reverse (trim_left s)) (reverse-All P (trim_left s) (trim_left-All P s h)))

take-All : (P : ℕ → Type 0) (n : ℕ) (s : Bytes) → All P s → All P (take n s)
take-All P zero s h = tt
take-All P (suc n) [] h = tt
take-All P (suc n) (c ∷ s) (h, hs) = (h, take-All P n s hs)

-- A kept text that begins with no cut character names an entry.
kept-IsName :
    (s : Bytes) → s ≢ [] → StartsKept s → All (λ c. is_kept c ≡ true) s → IsName s × NoSlash s
unfolding bytes_eq
kept-IsName [] h _ _ = absurd (h refl)
kept-IsName (c ∷ s) _ first (k, ks) = ((refl, no_dot, no_dots), solid (c ∷ s) (k, ks))
  where
    no_dot : bytes_eq (c ∷ s) dot ≡ false
    no_dot = unfold is_cut in ground arith

    no_dots : bytes_eq (c ∷ s) dot_dot ≡ false
    no_dots = unfold is_cut in ground arith

    solid : (s : Bytes) → All (λ c. is_kept c ≡ true) s → NoSlash s
    solid [] _ = tt
    solid (c ∷ s) (k, ks) = (unfold is_kept in ground arith, solid s ks)

-- An artifact type, whatever a registry puts into it, becomes one directory name of at most a
-- hundred bytes: no slash, not empty, neither `.` nor `..`.
pub type_dir_name-IsName :
    (runes : List ℕ)
    → IsName (type_dir_name runes)
      × NoSlash (type_dir_name runes)
      × (length (type_dir_name runes) ≤ 100)
unfolding type_dir_name bytes_eq
type_dir_name-IsName runes =
    named (trim kept) (trim-StartsKept kept)
      (trim-All (λ c. is_kept c ≡ true) kept (kept_bytes runes))
  where
    kept : Bytes
    kept = map (λ r. if is_kept r then r else b'-') runes

    named :
        (s : Bytes)
        → StartsKept s
        → All (λ c. is_kept c ≡ true) s
        → let name = if bytes_eq s [] then codes "unknown" else take 100 s in
          IsName name × NoSlash name × (length name ≤ 100)
    named [] h k = (
      (refl, refl, refl),
      (refl, (refl, (refl, (refl, (refl, (refl, (refl, tt))))))),
      omega arith,
    )
    named (c ∷ s) h k =
        let (name, solid) =
          kept-IsName (c ∷ take 99 s) (cons-ne-nil c (take 99 s)) h
            (take-All (λ c. is_kept c ≡ true) 100 (c ∷ s) k) in
        (name, solid, omega (arith, length-take 100 (c ∷ s)))
