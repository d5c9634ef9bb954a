-- ===== src/Shell/Values.antt =====
-- The values of registers as settings_shell.c prints and reads them.
use zephyr_io.Prelude.{
  ℕ, ◌-◌, ◌^◌, Option, none, some, [], ◌∷◌, ◌++◌, replicate, ◌==◌, if◌then◌else◌,
}
use zephyr_io.Table.Value.{
  RegisterType, SettingValue, unsigned, st_u8, st_u16, st_u32, st_u64, st_i8, st_i16, st_i32,
  st_i64, st_f32, st_f64, st_bool, st_type_count,
}
use zephyr_io.Routing.Protocol.{le_bytes}
use zephyr_io.Shell.Text.{Text, strtoul, strtol, decimal, signed_decimal}

-- strtof and strtod give the bit patterns; `print` is %.2f of a double, `widen` a float as a double.
pub record Floats : Type 0 where
  pub strtof : Text → ℕ
  pub strtod : Text → ℕ
  pub widen : ℕ → ℕ
  pub print : ℕ → Text

abbrev pub true_text : Text
true_text = b't' ∷ b'r' ∷ b'u' ∷ b'e' ∷ []

abbrev pub false_text : Text
false_text = b'f' ∷ b'a' ∷ b'l' ∷ b's' ∷ b'e' ∷ []

-- A number of so many bytes in the union, whose other bytes are 0.
unfoldable pub in_union : ℕ → ℕ → SettingValue
unfolding le_bytes
in_union size n = le_bytes size n ++ replicate (8 - size) 0

module _ (fl : Floats) where
  -- The text behind "name = "; nothing is printed for the other types.
  unfoldable pub print_value : RegisterType → SettingValue → Text
  unfolding unsigned decimal signed_decimal
  print_value st_u8 val = decimal (unsigned 1 val)
  print_value st_u16 val = decimal (unsigned 2 val)
  print_value st_u32 val = decimal (unsigned 4 val)
  print_value st_i8 val = signed_decimal (2 ^ 7) (unsigned 1 val)
  print_value st_i16 val = signed_decimal (2 ^ 15) (unsigned 2 val)
  print_value st_i32 val = signed_decimal (2 ^ 31) (unsigned 4 val)
  print_value st_f32 val = fl.print (fl.widen (unsigned 4 val))
  print_value st_f64 val = fl.print (unsigned 8 val)
  print_value st_bool val = if unsigned 1 val == 0 then false_text else true_text
  print_value st_u64 val = []
  print_value st_i64 val = []
  print_value st_type_count val = []

  -- `none` is "Unknown type".
  unfoldable pub parse_value : RegisterType → Text → Option SettingValue
  unfolding strtoul strtol in_union
  parse_value st_u8 text = some (in_union 1 (strtoul text 0))
  parse_value st_u16 text = some (in_union 2 (strtoul text 0))
  parse_value st_u32 text = some (in_union 4 (strtoul text 0))
  parse_value st_i8 text = some (in_union 1 (strtol text 0))
  parse_value st_i16 text = some (in_union 2 (strtol text 0))
  parse_value st_i32 text = some (in_union 4 (strtol text 0))
  parse_value st_f32 text = some (in_union 4 (fl.strtof text))
  parse_value st_f64 text = some (in_union 8 (fl.strtod text))
  parse_value st_bool text = some (in_union 1 (if strtoul text 0 == 0 then 0 else 1))
  parse_value st_u64 text = none
  parse_value st_i64 text = none
  parse_value st_type_count text = none

-- The integers of up to 32 bits, which the two have both.
abbrev pub IsShort : RegisterType → Type 0
IsShort st_u8 = Unit
IsShort st_u16 = Unit
IsShort st_u32 = Unit
IsShort st_i8 = Unit
IsShort st_i16 = Unit
IsShort st_i32 = Unit
IsShort _ = ⊥
