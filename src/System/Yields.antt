-- ===== src/System/Yields.antt =====
-- What holds of the value that a program returns, where it returns one.
use unpacker.Base.{◌≡◌, refl, String}
use unpacker.Errors.{wrap, Result, ok, err, wrap_result}
use unpacker.System.Monad.{World, M, proceed, ◌>>=◌, wrapping, lift}

abbrev pub Yields : {A : Type 0} → (A → Type 0) → Result A × World → Type 0
Yields Q (ok a, w) = Q a
Yields Q (err e, w) = Unit

module _ {A B : Type 0} (Q : B → Type 0) where
  -- The rule for a sequence: what the first part returned is known behind it.
  pub >>=-Yields :
      (m : M A) (f : A → M B) (w : World)
      → ((a : A) (u : World) → m w ≡ (ok a, u) → Yields Q (f a u))
      → Yields Q ((m >>= f) w)
  >>=-Yields m f w next = go (m w) refl
    where
      go : (o : Result A × World) → m w ≡ o → Yields Q (proceed f o)
      go (ok a, u) e = next a u e
      go (err x, u) e = tt

pub wrapping-Yields :
    {A : Type 0} (Q : A → Type 0) (t : String) (m : M A) (w : World)
    → Yields Q (m w)
    → Yields Q (wrapping t m w)
wrapping-Yields {A} Q t m w = go (m w)
  where
    go :
        (o : Result A × World)
        → Yields Q o
        → Yields {A = A} Q (elim o.0 [ ok a ↦ ok a | err e ↦ err (wrap t e) ], o.1)
    go (ok a, u) h = h
    go (err e, u) h = tt

-- A call outside the system answers what it answers.
pub lift-Yields :
    {A : Type 0} (t : String) (r : Result A) (w : World)
    → Yields {A = A} (λ a. r ≡ ok a) (lift (wrap_result t r) w)
lift-Yields t (ok a) w = refl
lift-Yields t (err e) w = tt
