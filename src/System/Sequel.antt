-- ===== src/System/Sequel.antt =====
-- What is known of the parts of a program that has gone through.
use unpacker.Base.{◌≡◌, refl, ap, String, arith}
use unpacker.Errors.{wrap, Result, ok, err}
use unpacker.System.Monad.{World, M, proceed, ◌>>=◌, wrapping}

-- Both halves of a sequence have gone through.
pub >>=-ok :
    {A B : Type 0} (m : M A) (f : A → M B) (w : World) {b : B} {v : World}
    → (m >>= f) w ≡ (ok b, v)
    → (a : A) × (u : World) × (m w ≡ (ok a, u)) × (f a u ≡ (ok b, v))
>>=-ok {A} {B} m f w {b} {v} = go (m w) refl
  where
    go :
        (o : Result A × World)
        → m w ≡ o
        → proceed f o ≡ (ok b, v)
        → (a : A) × (u : World) × (m w ≡ (ok a, u)) × (f a u ≡ (ok b, v))
    go (ok a, u) e h = (a, u, e, h)
    go (err x, u) e h = absurd (ground (arith, ap (λ (o : Result B × World). o.0) h))

pub wrapping-ok :
    {A : Type 0} (t : String) (m : M A) (w : World) {a : A} {v : World}
    → wrapping t m w ≡ (ok a, v)
    → m w ≡ (ok a, v)
wrapping-ok {A} t m w {a} {v} = go (m w)
  where
    go :
        (o : Result A × World)
        → ◌≡◌ {A = Result A × World}
            (elim o.0 [ ok a ↦ ok a | err e ↦ err (wrap t e) ], o.1)
            (ok a, v)
        → o ≡ (ok a, v)
    go (ok b, u) h = h
    go (err x, u) h = absurd (ground (arith, ap (λ (o : Result A × World). o.0) h))
