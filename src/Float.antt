-- ===== src/Float.antt =====
-- Python's `float`, as far as the program uses it: decimal literals, the two comparisons, `+`, `-`,
-- `*`, `/` and `int()`. The type and its operations are a parameter of the model, since the interpreter
-- supplies them. The laws are those of IEEE comparison, where NaN is below nothing, and below
-- itself neither; the literals of three decimals from 0 to 1 are different doubles, and in order.
use autonomous_sales_agent.Prelude.{
  ℕ, ◌+◌, ◌*◌, ◌/◌, ◌≤◌, leb, ◌&&◌, ◌≡◌, Bool, true, false, not, Option, none, some, arith,
}
use autonomous_sales_agent.Prelude.Int.{ℤ, pos, pos_part, neg_part, ◌+ℤ◌, ◌-ℤ◌, leb_ℤ, ltb_ℤ}

pub record Floating (F : Type 0) : Type 0 where
  pub le : F → F → Bool
  pub lt : F → F → Bool
  pub add : F → F → F
  pub sub : F → F → F
  pub mul : F → F → F
  -- division by a number other than zero
  pub div : F → F → F
  -- the literal n / 1000
  pub milli : ℕ → F
  -- `round(x, 6)` and `round(x, 3)`
  pub round6 : F → F
  pub round3 : F → F
  -- `int(x)`, with 0 for a negative result: the program compares it with counts only
  pub trunc : F → ℕ

-- `float(n)` of a count
abbrev pub of_count : {F : Type 0} ⦃fl : Floating F⦄ → ℕ → F
of_count ⦃fl⦄ n = fl.milli (n * 1000)

-- `x == y`
abbrev pub float_eq : {F : Type 0} ⦃fl : Floating F⦄ → F → F → Bool
float_eq ⦃fl⦄ x y = fl.le x y && fl.le y x

-- `x == x`, false exactly of NaN
abbrev pub IsNumber : {F : Type 0} ⦃fl : Floating F⦄ → F → Type 0
IsNumber ⦃fl⦄ x = fl.le x x ≡ true

pub record IsOrdered (F : Type 0) ⦃fl : Floating F⦄ : Type 0 where
  pub number_of_le : (x y : F) → fl.le x y ≡ true → (fl.le x x ≡ true) × (fl.le y y ≡ true)
  pub le_trans : (x y z : F) → fl.le x y ≡ true → fl.le y z ≡ true → fl.le x z ≡ true
  pub lt-eq-not-le : (x y : F) → IsNumber x → IsNumber y → fl.lt x y ≡ not (fl.le y x)
  pub le_of_lt : (x y : F) → fl.lt x y ≡ true → fl.le x y ≡ true
  pub milli_number : (n : ℕ) → n ≤ 1000 → IsNumber (fl.milli n)
  pub le-milli : (m n : ℕ) → m ≤ 1000 → n ≤ 1000 → fl.le (fl.milli m) (fl.milli n) ≡ leb m n
  pub zero-le-one : fl.le (fl.milli 0) (fl.milli 1000) ≡ true
  pub zero-le-half : fl.le (fl.milli 0) (fl.milli 500) ≡ true
  pub half-le-one : fl.le (fl.milli 500) (fl.milli 1000) ≡ true

-- A sample float type: whole thousandths, with `none` for NaN.
abbrev pub Millis : Type 0
Millis = Option ℤ

abbrev on_numbers {ℓ} : {B : Type ℓ} → (ℤ → ℤ → B) → B → Millis → Millis → B
on_numbers f d (some a) (some b) = f a b
on_numbers f d _ _ = d

abbrev whole : Millis → ℕ
whole (some (pos n)) = n / 1000
whole _ = 0

-- the quotient in thousandths, of numbers in thousandths, for a positive divisor
abbrev ratio_ℤ : ℤ → ℤ → ℤ
ratio_ℤ a b = pos (pos_part a * 1000 / pos_part b) -ℤ pos (neg_part a * 1000 / pos_part b)

-- the product in thousandths
abbrev product_ℤ : ℤ → ℤ → ℤ
product_ℤ a b =
    pos ((pos_part a * pos_part b + neg_part a * neg_part b) / 1000)
    -ℤ pos ((pos_part a * neg_part b + neg_part a * pos_part b) / 1000)

instance abbrev pub millis_floating : Floating Millis
millis_floating = record {
  le = on_numbers leb_ℤ false;
  lt = on_numbers ltb_ℤ false;
  add = on_numbers (λ a b. some (a +ℤ b)) none;
  sub = on_numbers (λ a b. some (a -ℤ b)) none;
  mul = on_numbers (λ a b. some (product_ℤ a b)) none;
  div = on_numbers (λ a b. some (ratio_ℤ a b)) none;
  milli = λ n. some (pos n);
  round6 = λ x. x;
  round3 = λ x. x;
  trunc = whole;
}

pub Millis-IsOrdered : IsOrdered Millis
Millis-IsOrdered = ground arith
