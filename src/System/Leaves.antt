-- ===== src/System/Leaves.antt =====
-- What holds of the value that a program returns and of the world that it leaves, where it returns.
use unpacker.Base.{◌≡◌, refl, String}
use unpacker.Errors.{wrap, Result, ok, err, wrap_result}
use unpacker.System.Monad.{World, M, proceed, ◌>>=◌, attempt, wrapping, lift}

abbrev pub Leaves : {A : Type 0} → (A → World → Type 0) → Result A × World → Type 0
Leaves Q (ok a, w) = Q a w
Leaves Q (err e, w) = Unit

module _ {B : Type 0} (Q : B → World → Type 0) where
  pub >>=-Leaves :
      (A : Type 0) (m : M A) (f : A → M B) (w : World)
      → ((a : A) (u : World) → m w ≡ (ok a, u) → Leaves Q (f a u))
      → Leaves Q ((m >>= f) w)
  >>=-Leaves A m f w next = go (m w) refl
    where
      go : (o : Result A × World) → m w ≡ o → Leaves Q (proceed f o)
      go (ok a, u) e = next a u e
      go (err x, u) e = tt

  -- The same, where the error of the first part is given a name.
  pub wrapping-Leaves :
      (A : Type 0) (t : String) (m : M A) (f : A → M B) (w : World)
      → ((a : A) (u : World) → m w ≡ (ok a, u) → Leaves Q (f a u))
      → Leaves Q ((wrapping t m >>= f) w)
  wrapping-Leaves A t m f w next = go (m w) refl
    where
      go :
          (o : Result A × World)
          → m w ≡ o
          → Leaves Q (proceed {A = A} f (elim o.0 [ ok a ↦ ok a | err e ↦ err (wrap t e) ], o.1))
      go (ok a, u) e = next a u e
      go (err x, u) e = tt

  -- A call outside the system.
  pub lift-Leaves :
      (A : Type 0) (r : Result A) (f : A → M B) (w : World)
      → ((a : A) → r ≡ ok a → Leaves Q (f a w))
      → Leaves Q ((lift r >>= f) w)
  lift-Leaves A (ok a) f w next = next a refl
  lift-Leaves A (err e) f w next = tt

  pub lift-wrap_result-Leaves :
      (A : Type 0) (t : String) (r : Result A) (f : A → M B) (w : World)
      → ((a : A) → r ≡ ok a → Leaves Q (f a w))
      → Leaves Q ((lift (wrap_result t r) >>= f) w)
  lift-wrap_result-Leaves A t (ok a) f w next = next a refl
  lift-wrap_result-Leaves A t (err e) f w next = tt

  -- Both outcomes of the first part are looked at.
  pub attempt-Leaves :
      (A : Type 0) (m : M A) (f : Result A → M B) (w : World)
      → ((r : Result A) (u : World) → m w ≡ (r, u) → Leaves Q (f r u))
      → Leaves Q ((attempt m >>= f) w)
  attempt-Leaves A m f w next = next (m w).0 (m w).1 refl
