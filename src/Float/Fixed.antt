-- ===== src/Float/Fixed.antt =====
-- A concrete instance for tests: fixed-point numbers with twelve decimals.
use core_service.Prelude.{ℕ, ◌+◌, ◌*◌, ◌/◌, if◌then◌else◌}
use core_service.Prelude.Int.{
  ℤ, pos, negsuc, pos_part, neg_part, sub_ℕ, ◌+ℤ◌, ◌-ℤ◌, ltb_ℤ, leb_ℤ, eqb_ℤ,
}
use core_service.Float.{Float64}
use core_service.Text.{decimal}

abbrev scale : ℕ
scale = 1_000_000_000_000

abbrev magnitude : ℤ → ℕ
magnitude a = pos_part a + neg_part a

-- A magnitude with the sign of a product or quotient.
abbrev signed : ℤ → ℤ → ℕ → ℤ
signed (pos _) (pos _) n = pos n
signed (negsuc _) (negsuc _) n = pos n
signed _ _ n = sub_ℕ 0 n

-- n whole units.
abbrev pub units : ℕ → ℤ
units n = pos (n * scale)

instance abbrev pub fixed : Float64 ℤ
fixed = record {
  add_of = ◌+ℤ◌;
  sub_of = ◌-ℤ◌;
  mul_of = λ a b. signed a b (magnitude a * magnitude b / scale);
  div_of = λ a b. signed a b (magnitude a * scale / magnitude b);
  max_of = λ a b. if ltb_ℤ a b then b else a;
  abs_of = λ a. pos (magnitude a);
  round_of = λ a. signed a (pos 0) ((magnitude a + scale / 2) / scale * scale);
  lt_of = ltb_ℤ;
  le_of = leb_ℤ;
  eq_of = eqb_ℤ;
  zero_of = pos 0;
  one_of = pos scale;
  tiny_of = pos 1;
  small_of = pos 1000;
  print_g_of = decimal;
  print_f_of = decimal;
}
