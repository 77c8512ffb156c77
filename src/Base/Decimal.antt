-- ===== src/Base/Decimal.antt =====
-- A number that is printed is read back.
use Prim.Native.Nat.{ℕ, zero, suc, ◌+◌, ◌*◌, ◌/◌, ◌%◌, ◌<◌}
use mathlib.Core.Path.{◌≡◌, refl, ap, ◌∙◌}
use mathlib.Core.Logic.{inl, inr}
use mathlib.Core.List.{[], ◌∷◌, ◌++◌}
use mathlib.Core.Option.{some}
use native.Mathlib.Omega.{arith}
use pulsegate.Base.Tests.{ltb, ltb→lt, Bool-cases}
use pulsegate.Base.Texts.{Bytes}
use pulsegate.Base.Numbers.{decimal_digits, to_string, digit_value, scan_digits}

digit_value-digit : (d : ℕ) → d < 10 → digit_value 10 (48 + d) ≡ some d
unfolding digit_value
digit_value-digit d h = ground arith

scan_digits-digit :
    (value d : ℕ) (later : Bytes)
    → d < 10
    → scan_digits 10 value ((48 + d) ∷ later) ≡ scan_digits 10 (value * 10 + d) later
unfolding scan_digits
scan_digits-digit value d later h = rw (digit_value-digit d h, scan_digits) refl

-- The digits of `n`, scanned after nothing, are scanned as the value `n`.
scan_digits-decimal_digits :
    (fuel n : ℕ) (later : Bytes)
    → n < fuel
    → scan_digits 10 0 (decimal_digits fuel n later) ≡ scan_digits 10 n later
unfolding decimal_digits
scan_digits-decimal_digits zero n later h = absurd (omega arith)
scan_digits-decimal_digits (suc fuel) n later h = elim (Bool-cases (ltb n 10)) [
  | inl small ↦
      rw (small, decimal_digits)
        (scan_digits-digit 0 n later (ltb→lt n 10 small)
          ∙ (let e : 0 * 10 + n ≡ n = omega arith in rw e))
  | inr large ↦
      rw (large, decimal_digits)
        (scan_digits-decimal_digits fuel (n / 10) ((48 + n % 10) ∷ later) (ground arith)
          ∙ scan_digits-digit (n / 10) (n % 10) later (omega arith)
          ∙ (let e : n / 10 * 10 + n % 10 ≡ n = omega arith in rw e))
]

pub scan_digits-to_string :
    (n : ℕ) (later : Bytes)
    → scan_digits 10 0 (decimal_digits (suc n) n later) ≡ scan_digits 10 n later
scan_digits-to_string n later = scan_digits-decimal_digits (suc n) n later (omega arith)

-- What follows the digits can be put behind them first.
decimal_digits-append :
    (fuel n : ℕ) (later more : Bytes)
    → decimal_digits fuel n later ++ more ≡ decimal_digits fuel n (later ++ more)
unfolding decimal_digits
decimal_digits-append zero n later more = refl
decimal_digits-append (suc fuel) n later more = elim (Bool-cases (ltb n 10)) [
  | inl small ↦ rw (small, decimal_digits) refl
  | inr large ↦
      rw (large, decimal_digits) (decimal_digits-append fuel (n / 10) ((48 + n % 10) ∷ later) more)
]

pub scan-to_string :
    (n : ℕ) (more : Bytes) → scan_digits 10 0 (to_string n ++ more) ≡ scan_digits 10 n more
unfolding to_string
scan-to_string n more =
    ap (scan_digits 10 0) (decimal_digits-append (suc n) n [] more) ∙ scan_digits-to_string n more
