-- ===== src/Common/Float.antt =====
-- Go's float64, as far as the code uses it: a parameter, since IEEE arithmetic is not modelled.
-- `to_int` is the conversion to int64, `ratio a b` the constant a / b.
use bondify.Common.{ℕ, ◌+◌, ◌-◌, ◌*◌, ◌/◌, Bool, ltb, if◌then◌else◌}
use bondify.Common.Int.{ℤ, pos, negsuc, pos_part, neg_part, ltb_ℤ, ◌+ℤ◌, ◌-ℤ◌, ◌*ℤ◌}

pub record Float (F : Type 0) : Type 0 where
  pub of_int : ℤ → F
  pub to_int : F → ℤ
  pub ceil : F → ℤ
  pub ratio : ℕ → ℕ → F
  pub add : F → F → F
  pub sub : F → F → F
  pub mul : F → F → F
  pub div : F → F → F
  pub lt : F → F → Bool

-- Thousandths, for concrete runs.
abbrev pub thousandths : Float ℕ
thousandths = record {
  of_int = λ z. pos_part z * 1000;
  to_int = λ x. pos (x / 1000);
  ceil = λ x. pos ((x + 999) / 1000);
  ratio = λ a b. a * 1000 / b;
  add = λ x y. x + y;
  sub = λ x y. x - y;
  mul = λ x y. x * y / 1000;
  div = λ x y. x * 1000 / y;
  lt = ltb;
}

-- Division towards 0.
abbrev pub quot : ℤ → ℕ → ℤ
quot (pos n) k = pos (n / k)
quot (negsuc n) k = pos 0 -ℤ pos ((n + 1) / k)

-- Thousandths with a sign, for concrete runs that subtract.
abbrev pub signed_thousandths : Float ℤ
signed_thousandths = record {
  of_int = λ z. z *ℤ pos 1000;
  to_int = λ x. quot x 1000;
  ceil = λ x. quot (x +ℤ pos 999) 1000;
  ratio = λ a b. pos (a * 1000 / b);
  add = λ x y. x +ℤ y;
  sub = λ x y. x -ℤ y;
  mul = λ x y. quot (x *ℤ y) 1000;
  div = λ x y.
      if ltb_ℤ y (pos 0)
      then quot (pos 0 -ℤ x *ℤ pos 1000) (neg_part y)
      else quot (x *ℤ pos 1000) (pos_part y);
  lt = λ x y. ltb_ℤ x y;
}
