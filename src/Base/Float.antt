-- ===== src/Base/Float.antt =====
-- All that the code does with a `float`: `isfinite`, three comparisons, three operations, decimal
-- literals and the `%.Nf` conversions of `snprintf`. The type and its operations are a parameter.
use Prim.Native.Nat.{ℕ, ◌+◌, ◌*◌, ◌/◌, ◌^◌, ◌<◌}
use mathlib.Core.Path.{◌≡◌, refl}
use mathlib.Core.Bool.{Bool, true, false}
use mathlib.Core.Option.{Option, none, some}
use mathlib.Core.List.{List, [], ◌∷◌}
use native.Mathlib.Omega.{arith}
use esp32_real_time_energy_c.Base.Tests.{ltb, leb}

pub record Float {ℓ} (F : Type ℓ) : Type ℓ where
  pub is_finite : F → Bool
  pub lt : F → F → Bool
  pub le : F → F → Bool
  pub gt : F → F → Bool
  pub add : F → F → F
  pub mul : F → F → F
  pub div : F → F → F
  -- `literal m k` is the constant m / 10 ^ k
  pub literal : ℕ → ℕ → F
  -- `format k x` is the text of `%.kf`
  pub format : ℕ → F → List ℕ

-- What IEEE 754 says of the comparisons: on finite values they are a total order, a comparison with
-- a NaN is false, and the literals of the code are finite.
pub record IsIeee {ℓ} (F : Type ℓ) ⦃fl : Float F⦄ : Type ℓ where
  pub gt-lt : (x y : F) → fl.gt x y ≡ fl.lt y x
  pub le_of_not-lt :
      (x y : F)
      → fl.is_finite x ≡ true
      → fl.is_finite y ≡ true
      → fl.lt x y ≡ false
      → fl.le y x ≡ true
  pub le_not-lt : (x y : F) → fl.le x y ≡ true → fl.lt y x ≡ false
  pub literal_finite : (m k : ℕ) → m < 2 ^ 24 → fl.is_finite (fl.literal m k) ≡ true

-- The laws can be met: whole thousandths, with `none` for NaN. The tests run on it.
abbrev pub Milli : Type 0
Milli = Option ℕ

abbrev pub on_numbers : (ℕ → ℕ → Bool) → Milli → Milli → Bool
on_numbers f (some a) (some b) = f a b
on_numbers f _ _ = false

abbrev pub lift_numbers : (ℕ → ℕ → ℕ) → Milli → Milli → Milli
lift_numbers f (some a) (some b) = some (f a b)
lift_numbers f _ _ = none

abbrev pub is_number : Milli → Bool
is_number (some a) = true
is_number none = false

abbrev pub to_text : ℕ → Milli → List ℕ
to_text k (some a) = b'#' ∷ []
to_text k none = b'n' ∷ b'a' ∷ b'n' ∷ []

instance abbrev pub milli_float : Float Milli
milli_float = record {
  is_finite = is_number;
  lt = on_numbers ltb;
  le = on_numbers leb;
  gt = on_numbers λ a b. ltb b a;
  add = lift_numbers λ a b. a + b;
  mul = lift_numbers λ a b. a * b / 1000;
  div = lift_numbers λ a b. a * 1000 / b;
  literal = λ m k. some (m * 1000 / 10 ^ k);
  format = to_text;
}

pub Milli-IsIeee : IsIeee Milli
Milli-IsIeee = record {
  gt-lt = λ x y. ground arith;
  le_of_not-lt = λ x y a b c. ground arith;
  le_not-lt = λ x y a. ground arith;
  literal_finite = λ m k a. refl;
}
