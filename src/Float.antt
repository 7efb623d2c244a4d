-- ===== src/Float.antt =====
-- float64 as an interface: the operations of the language and of package math that the service
-- applies to quantities, prices and balances, over a type F of values.
pub mod Fixed
use core_service.Prelude.{Bool, true, false, ◌≡◌, if◌then◌else◌}
use core_service.Text.{Text}

pub record Float64 (F : Type 0) : Type 0 where
  pub add_of : F → F → F
  pub sub_of : F → F → F
  pub mul_of : F → F → F
  pub div_of : F → F → F
  pub max_of : F → F → F
  pub abs_of : F → F
  pub round_of : F → F
  pub lt_of : F → F → Bool
  pub le_of : F → F → Bool
  pub eq_of : F → F → Bool
  -- The literals 0, 1, 1e-12 and 1e-9.
  pub zero_of : F
  pub one_of : F
  pub tiny_of : F
  pub small_of : F
  -- The verb %g, and strconv.FormatFloat(x, 'f', -1, 64).
  pub print_g_of : F → Text
  pub print_f_of : F → Text

module _ {F : Type 0} ⦃fl : Float64 F⦄ where
  abbrev pub add : F → F → F
  add = fl.add_of

  abbrev pub sub : F → F → F
  sub = fl.sub_of

  abbrev pub mul : F → F → F
  mul = fl.mul_of

  abbrev pub div : F → F → F
  div = fl.div_of

  -- math.Max, math.Abs, math.Round
  abbrev pub max : F → F → F
  max = fl.max_of

  abbrev pub abs : F → F
  abs = fl.abs_of

  abbrev pub round : F → F
  round = fl.round_of

  abbrev pub lt : F → F → Bool
  lt = fl.lt_of

  abbrev pub le : F → F → Bool
  le = fl.le_of

  abbrev pub eq : F → F → Bool
  eq = fl.eq_of

  abbrev pub zero : F
  zero = fl.zero_of

  abbrev pub one : F
  one = fl.one_of

  -- 1e-12
  abbrev pub tiny : F
  tiny = fl.tiny_of

  -- 1e-9
  abbrev pub small : F
  small = fl.small_of

  abbrev pub print_g : F → Text
  print_g = fl.print_g_of

  abbrev pub print_f : F → Text
  print_f = fl.print_f_of
