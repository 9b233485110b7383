-- ===== src/Tests/Numbers.antt =====
-- Whole numbers for the scores of pkg/brokerregistry/registry.go, and that they keep the laws.
use native.Mathlib.Nat.{div-le_self, mul-le-mul}
use kidp.Prelude.{ℕ, ◌+◌, ◌-◌, ◌*◌, ◌/◌, ◌≤◌, pos_part, ltb, arith}
use kidp.Registry.{Floats}
use kidp.Registry.Score.{IsIeee}

-- Whole numbers in place of floating-point numbers.
abbrev pub whole : Floats
whole = record {
  of_int = pos_part;
  add = ◌+◌;
  minus = ◌-◌;
  mul = ◌*◌;
  div = ◌/◌;
  gt = λ a b. ltb b a;
}

times_le : (m n x y : ℕ) → x ≤ m → y ≤ n → x * y ≤ m * n
times_le m n x y h k = mul-le-mul h k

pub whole-IsIeee : IsIeee whole
whole-IsIeee = record {
  Within = λ n x. x ≤ n;
  widen = λ m n x h k. omega arith;
  within_of_int = λ z n h k. omega arith;
  within_add = λ m n x y h k l. omega arith;
  within_minus = λ m n x y h k l. omega arith;
  within_mul = λ m n x y h k l. times_le m n x y h k;
  within_div = λ m x z h k l. omega (arith, div-le_self x (pos_part z));
  gt_irrefl = λ x. ground arith;
  gt_asym = λ x y h. ground arith;
  le_trans = λ k m n x y z h i j p q. ground arith;
}
