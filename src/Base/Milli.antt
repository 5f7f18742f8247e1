-- ===== src/Base/Milli.antt =====
-- A model of the float laws: thousandths, with `none` for NaN. Quotients and products round down.
use loadgen.Base.{
  ℕ, ◌+◌, ◌-◌, ◌*◌, ◌/◌, ◌≤◌, ltb, leb, Bool, false, Option, none, some, arith, ℤ, pos, negsuc,
}
use loadgen.Base.Float.{Float64, IsIeee, IsUnit, ◌≼◌}
use native.Mathlib.Nat.{div-le_of_le-mul}
use Prim.Native.Nat

abbrev pub Milli : Type 0
Milli = Option ℕ

abbrev on_numbers : (ℕ → ℕ → Bool) → Milli → Milli → Bool
on_numbers f (some a) (some b) = f a b
on_numbers f _ _ = false

abbrev on_both : (ℕ → ℕ → ℕ) → Milli → Milli → Milli
on_both f (some a) (some b) = some (f a b)
on_both f _ _ = none

abbrev whole : ℕ → Milli → ℤ
whole k none = pos 0
whole k (some a) = pos (a * k / 1000)

abbrev from_whole : ℕ → ℤ → Milli
from_whole k (pos n) = some (n * 1000 / k)
from_whole k (negsuc n) = some 0

instance abbrev pub milli_float : Float64 Milli
milli_float = record {
  lit = λ n. some n;
  lt = on_numbers ltb;
  le = on_numbers leb;
  add = on_both ◌+◌;
  sub = on_both ◌-◌;
  mul = on_both (λ a b. a * b / 1000);
  div = on_both (λ a b. a * 1000 / b);
  min = on_both Nat.min;
  max = on_both Nat.max;
  trunc = whole 1;
  of_int = from_whole 1;
  to_ns = whole 1_000_000_000;
  seconds = from_whole 1_000_000_000;
}

mul_shrinks : (a b : ℕ) → a ≤ 1000 → b ≤ 1000 → a * b / 1000 ≤ a
mul_shrinks a b h k = grind arith

div_shrinks : (a c : ℕ) → 1000 ≤ c → a * 1000 / c ≤ a
div_shrinks a c h = div-le_of_le-mul c (grind arith)

mul-IsUnit :
    (x y : Milli) → IsUnit x → IsUnit y → IsUnit (milli_float.mul x y) × (milli_float.mul x y ≼ x)
mul-IsUnit (some a) (some b) h k = ground (arith, mul_shrinks a b)
mul-IsUnit (some a) none h k = cc
mul-IsUnit none y h k = cc

div_shrink :
    (x y : Milli)
    → IsUnit x
    → milli_float.lit 1000 ≼ y
    → IsUnit (milli_float.div x y) × (milli_float.div x y ≼ x)
div_shrink (some a) (some b) h k = ground (arith, div_shrinks a b)
div_shrink (some a) none h k = cc
div_shrink none y h k = cc

pub Milli-IsIeee : IsIeee Milli
Milli-IsIeee = record {
  number_of_le = λ x y. ground arith;
  number_of_lt = λ x y. ground arith;
  le_trans = λ x y z. ground arith;
  lt-eq-not-le = λ x y. ground arith;
  le_total = λ x y. ground arith;
  lit_le = λ m n h. ground arith;
  lit_lt = λ m n h. ground arith;
  div_number = λ x y. ground arith;
  mul_unit = mul-IsUnit;
  div_shrink = div_shrink;
  seconds_div = λ n y. ground arith;
  min_unit = λ y. ground arith;
  seconds_number = λ n. ground arith;
  seconds_positive = λ n h. ground arith;
}
