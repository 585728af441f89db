-- ===== src/Float.antt =====
-- All that the code does with `float` and `double`. IEEE arithmetic is a parameter of the model:
-- the type of a `float` with these operations. What a theorem asks of them is a hypothesis.
use obs_rvc.Prelude.{ℕ, Bool, true, false, ◌≡◌, if◌then◌else◌}
use obs_rvc.Prelude.Int.{ℤ}

pub record Arithmetic (T : Type 0) : Type 0 where
  pub add : T → T → T
  pub sub : T → T → T
  pub mul : T → T → T
  pub div : T → T → T
  pub lt : T → T → Bool
  -- the conversion of an unsigned integer
  pub of_nat : ℕ → T

-- `F` is `float`, and `Double` is `double`.
pub record Floats (F : Type 0) : Type 1 where
  pub Double : Type 0
  pub single : Arithmetic F
  pub double : Arithmetic Double
  -- `std::isfinite`, `std::floor` and `std::cos` at `float`, `std::sqrt` at `double`
  pub is_finite : F → Bool
  pub floor : F → F
  pub cos : F → F
  pub sqrt : Double → Double
  -- the conversions between the two types
  pub widen : F → Double
  pub narrow : Double → F
  -- `static_cast<size_t>` of a `double`, and both casts between `float` and `int16_t`
  pub truncate : Double → ℕ
  pub of_int16 : ℤ → F
  pub to_int16 : F → ℤ
  -- the literals -2.0 and 1e-12, 0.5F, pi, -32768.0F and 32767.0F
  pub minus_two : Double
  pub tiny : Double
  pub half : F
  pub pi : F
  pub lowest_sample : F
  pub highest_sample : F

module _ {F : Type 0} ⦃fl : Floats F⦄ where
  abbrev pub nought : F
  nought = fl.single.of_nat 0

  abbrev pub one : F
  one = fl.single.of_nat 1

  -- `std::min` and `std::clamp`
  abbrev pub min_single : F → F → F
  min_single a b = if fl.single.lt b a then b else a

  abbrev pub clamp_single : F → F → F → F
  clamp_single x low high =
      if fl.single.lt x low then low else if fl.single.lt high x then high else x

-- Laws of `<` that hold for all IEEE values, NaN among them.
pub record IsComparison {T : Type 0} (arithmetic : Arithmetic T) : Type 0 where
  pub irreflexive : (a : T) → arithmetic.lt a a ≡ false
  pub not_above :
      (a b c : T) → arithmetic.lt a b ≡ true → arithmetic.lt a c ≡ false → arithmetic.lt b c ≡ false
