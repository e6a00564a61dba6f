-- ===== src/Tests/Numbers.antt =====
-- Whole numbers in the place of float64, with every conversion and function the identity or nearly so.
use nanolink.Prelude.{ℕ, ◌+◌, ◌-◌, ◌*◌, ◌/◌, ◌^◌, refl, true, arith, leb, if◌then◌else◌}
use nanolink.Prelude.Int.{pos, pos_part}
use nanolink.Prelude.Float.{Floats, Ordered, Exact, Whole}

abbrev pub wholes : Floats
wholes = record {
  F = ℕ;
  ratio = λ a b. a / b;
  of_nat = λ n. n;
  seconds = λ d. pos_part d / 1000000000;
  le = leb;
  add = λ a b. a + b;
  sub = λ a b. a - b;
  mul = λ a b. a * b;
  div = λ a b. a / b;
  neg = λ a. a;
  log = λ a. a;
  pow = λ a b. a ^ b;
  ceil = λ a. a;
  round = λ a. a;
  min = λ a b. if leb a b then a else b;
  max = λ a b. if leb a b then b else a;
  to_uint = λ a. a;
  to_int = pos;
  floor = pos;
  is_seconds = λ a. true;
}

pub wholes_ordered : Ordered wholes
wholes_ordered = record {
  le_trans = λ a b c h k. ground arith;
  add_nonneg = λ a b h k. ground arith;
  le_refl_nonneg = λ a h. ground arith;
  min_nonneg = λ a b h k. ground arith;
  min-le_left = λ a b h k. ground arith;
  sub_nonneg = λ a n h. ground arith;
  sub-le = λ a n h. ground arith;
}

pub wholes_exact : Exact wholes
wholes_exact = record {
  le_exact = λ a b h k. refl;
  add_exact = λ a b h. refl;
  mul_exact = λ a b h k l. refl;
  sub_exact = λ a b h k. refl;
  min_exact = λ a b h k. refl;
  max-sub_exact = λ a b h k. ground arith;
  floor_exact = λ a h. refl;
}

-- The same with quotients rounded up, as `math.ceil` of a quotient is.
abbrev pub rounded : Floats
rounded = record wholes { div = λ a b. (a + (b - 1)) / b }

pub rounded_exact : Exact rounded
rounded_exact = record {
  le_exact = λ a b h k. refl;
  add_exact = λ a b h. refl;
  mul_exact = λ a b h k l. refl;
  sub_exact = λ a b h k. refl;
  min_exact = λ a b h k. refl;
  max-sub_exact = λ a b h k. ground arith;
  floor_exact = λ a h. refl;
}

pub rounded_whole : Whole rounded
rounded_whole = record { ceil_exact = λ a b h k l. refl; seconds_exact = λ a h. refl }
