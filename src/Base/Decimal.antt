-- ===== src/Base/Decimal.antt =====
-- Reading back what `%d` prints.
use Prim.Native.Nat.{ℕ, zero, suc, ◌+◌, ◌-◌, ◌*◌, ◌/◌, ◌%◌, ◌<◌}
use mathlib.Core.Path.{◌≡◌, refl, ap, ◌∙◌}
use mathlib.Core.Bool.{Bool, true, false}
use mathlib.Core.List.{[], ◌∷◌}
use native.Mathlib.Omega.{arith}
use unpacker.Base.Tests.{ltb, if◌then◌else◌}
use unpacker.Base.Text.{Bytes}
use unpacker.Base.Runes.{digits, decimal}

-- The number that some digits spell, behind the number that those before them spell.
unfoldable pub value_of : ℕ → Bytes → ℕ
value_of n [] = n
value_of n (c ∷ s) = value_of (n * 10 + (c - b'0')) s

digit : (n : ℕ) → (b'0' + n % 10) - b'0' ≡ n % 10
digit n = omega arith

digits-spelled : (fuel n : ℕ) (s : Bytes) → n < fuel → value_of 0 (digits fuel n s) ≡ value_of n s
unfolding value_of digits
digits-spelled zero n s h = absurd (omega arith)
digits-spelled (suc fuel) n s h = go (ltb n 10) refl (digits-spelled fuel)
  where
    rest : Bytes
    rest = (b'0' + n % 10) ∷ s

    go :
        (b : Bool)
        → ltb n 10 ≡ b
        → ((n : ℕ) (s : Bytes) → n < fuel → value_of 0 (digits fuel n s) ≡ value_of n s)
        → value_of 0 (if b then rest else digits fuel (n / 10) rest) ≡ value_of n s
    go true small ih = ap (λ k. value_of k s) (ground arith)
    go false large ih = ih (n / 10) rest (ground arith) ∙ ap (λ k. value_of k s) (omega arith)

-- The digits printed for a number spell the number.
pub decimal-spelled : (n : ℕ) → value_of 0 (decimal n) ≡ n
unfolding decimal value_of
decimal-spelled n = digits-spelled (n + 1) n [] (omega arith)
