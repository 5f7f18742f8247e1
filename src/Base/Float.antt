-- ===== src/Base/Float.antt =====
-- What the program does with a `float64`. The language under the model has no floats, so the type
-- and its operations are a parameter, and what IEEE 754 promises of them stands in `IsIeee`.
use Prim.Native.Nat.{ℕ, ◌≤◌, ◌<◌}
use mathlib.Core.Path.{◌≡◌}
use mathlib.Core.Logic.{◌⊎◌}
use mathlib.Core.Bool.{Bool, true, not}
use loadgen.Base.Int.{ℤ, pos}

pub record Float64 (F : Type 0) : Type 0 where
  -- `lit n` is the constant n / 1000: every constant that the modelled code writes is one.
  pub lit : ℕ → F
  pub lt : F → F → Bool
  pub le : F → F → Bool
  pub add : F → F → F
  pub sub : F → F → F
  pub mul : F → F → F
  pub div : F → F → F
  -- `math.Min` and `math.Max`.
  pub min : F → F → F
  pub max : F → F → F
  -- `int(x)`, `float64(n)`, `time.Duration(x * float64(time.Second))` and `Duration.Seconds`.
  pub trunc : F → ℤ
  pub of_int : ℤ → F
  pub to_ns : F → ℤ
  pub seconds : ℤ → F

module _ {F : Type 0} ⦃d : Float64 F⦄ where
  infix 4 ◌≼◌
  abbrev pub ◌≼◌ : F → F → Type 0
  x ≼ y = d.le x y ≡ true

  -- NaN is the value that is not `<=` itself.
  abbrev pub IsNumber : F → Type 0
  IsNumber x = d.le x x ≡ true

  -- A fraction between 0 and 1.
  abbrev pub IsUnit : F → Type 0
  IsUnit x = (d.lit 0 ≼ x) × (x ≼ d.lit 1000)

-- The comparisons are total away from NaN and false at it; constants are ordered as written; a
-- product with a fraction, and a quotient by at least 1, do not grow; a positive quotient of a
-- whole time is not negative. Rounding to nearest keeps each of them.
pub record IsIeee (F : Type 0) ⦃d : Float64 F⦄ : Type 0 where
  pub number_of_le : (x y : F) → x ≼ y → IsNumber x × IsNumber y
  pub number_of_lt : (x y : F) → d.lt x y ≡ true → IsNumber x × IsNumber y
  pub le_trans : (x y z : F) → x ≼ y → y ≼ z → x ≼ z
  pub lt-eq-not-le : (x y : F) → IsNumber x → IsNumber y → d.lt x y ≡ not (d.le y x)
  pub le_total : (x y : F) → IsNumber x → IsNumber y → (x ≼ y) ⊎ (y ≼ x)
  pub lit_le : (m n : ℕ) → m ≤ n → d.lit m ≼ d.lit n
  pub lit_lt : (m n : ℕ) → m < n → n ≤ 1_000_000_000 → d.lt (d.lit m) (d.lit n) ≡ true
  pub div_number :
      (x y : F) → IsNumber x → d.lt (d.lit 0) y ≡ true → y ≼ d.lit 1_000_000 → IsNumber (d.div x y)
  pub mul_unit : (x y : F) → IsUnit x → IsUnit y → IsUnit (d.mul x y) × (d.mul x y ≼ x)
  pub div_shrink : (x y : F) → IsUnit x → d.lit 1000 ≼ y → IsUnit (d.div x y) × (d.div x y ≼ x)
  pub seconds_div :
      (n : ℕ) (y : F) → d.lt (d.lit 0) y ≡ true → d.lit 0 ≼ d.div (d.seconds (pos n)) y
  pub min_unit : (y : F) → d.lit 0 ≼ y → IsUnit (d.min (d.lit 1000) y)
  pub seconds_number : (n : ℤ) → IsNumber (d.seconds n)
  pub seconds_positive : (n : ℕ) → 1_000_000_000 ≤ n → d.lt (d.lit 0) (d.seconds (pos n)) ≡ true
