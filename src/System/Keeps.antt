-- ===== src/System/Keeps.antt =====
-- Programs that respect a relation between the worlds before and after them, on every outcome.
use unpacker.Base.{Bool, true, false, if◌then◌else◌, String, List}
use unpacker.Errors.{Error, Result, ok, err}
use unpacker.System.Yields.{Yields}
use unpacker.System.Monad.{
  World, M, proceed, ◌>>=◌, pure, fail, attempt, wrapping, lift, LogLine, say,
}

module _ (R : World → World → Type 0) where
  abbrev pub Keeps : {A : Type 0} → M A → Type 0
  Keeps m = (w : World) → R w (m w).1

  pub record IsPreorder : Type 0 where
    pub same : (w : World) → R w w
    pub then_also : (u v w : World) → R u v → R v w → R u w
    pub ignores_log : (w : World) (l : List LogLine) → R w (record w { log = l })

  module _ (P : IsPreorder) where
    pub pure-Keeps : {A : Type 0} (a : A) → Keeps (pure a)
    pure-Keeps a w = P.same w

    pub fail-Keeps : (A : Type 0) (e : Error) → Keeps (fail {A = A} e)
    fail-Keeps A e w = P.same w

    pub lift-Keeps : {A : Type 0} (r : Result A) → Keeps (lift r)
    lift-Keeps r w = P.same w

    pub attempt-Keeps : {A : Type 0} (m : M A) → Keeps m → Keeps (attempt m)
    attempt-Keeps m h w = h w

    pub wrapping-Keeps : {A : Type 0} (t : String) (m : M A) → Keeps m → Keeps (wrapping t m)
    wrapping-Keeps t m h w = h w

    pub say-Keeps : (l : LogLine) → Keeps (say l)
    say-Keeps l w = P.ignores_log w _

    pub >>=-Keeps :
        (A B : Type 0) (m : M A) (f : A → M B) → Keeps m → ((a : A) → Keeps (f a)) → Keeps (m >>= f)
    >>=-Keeps A B m f hm hf w = go (m w) (hm w)
      where
        go : (r : Result A × World) → R w r.1 → R w (proceed f r).1
        go (ok a, w') h = P.then_also w w' (f a w').1 h (hf a w')
        go (err e, w') h = h

    pub if-Keeps :
        (A : Type 0) (b : Bool) (m n : M A) → Keeps m → Keeps n → Keeps (if b then m else n)
    if-Keeps A true m n hm hn = hm
    if-Keeps A false m n hm hn = hn

    -- The rule for a sequence whose first part is known to answer well.
    pub >>=-Keeps_of :
        (A B : Type 0) (Q : A → Type 0) (m : M A) (f : A → M B)
        → Keeps m
        → ((w : World) → Yields Q (m w))
        → ((a : A) → Q a → Keeps (f a))
        → Keeps (m >>= f)
    >>=-Keeps_of A B Q m f hm answers hf w = go (m w) (hm w) (answers w)
      where
        go : (r : Result A × World) → R w r.1 → Yields Q r → R w (proceed f r).1
        go (ok a, w') h q = P.then_also w w' (f a w').1 h (hf a q w')
        go (err e, w') h q = h
