-- ===== src/Table/Value.antt =====
-- The types of registers and the union of their values: sizes, comparison, access to memory.
use zephyr_io.Prelude.{
  ℕ, zero, suc, ◌+◌, ◌-◌, ◌*◌, ◌%◌, ◌^◌, List, ◌∷◌, [], ◌++◌, Bool, true, false, take, drop, ltb,
  ◌&&◌, not, if◌then◌else◌,
}

-- `enum register_type`, its count included.
pub data RegisterType : Type 0 where
  st_u8 : RegisterType
  st_u16 : RegisterType
  st_u32 : RegisterType
  st_u64 : RegisterType
  st_i8 : RegisterType
  st_i16 : RegisterType
  st_i32 : RegisterType
  st_i64 : RegisterType
  st_f32 : RegisterType
  st_f64 : RegisterType
  st_bool : RegisterType
  st_type_count : RegisterType

unfoldable pub register_type_size : RegisterType → ℕ
register_type_size st_u8 = 1
register_type_size st_u16 = 2
register_type_size st_u32 = 4
register_type_size st_u64 = 8
register_type_size st_i8 = 1
register_type_size st_i16 = 2
register_type_size st_i32 = 4
register_type_size st_i64 = 8
register_type_size st_f32 = 4
register_type_size st_f64 = 8
register_type_size st_bool = 1
register_type_size st_type_count = 0

-- `union setting_value`: its bytes, little endian.
abbrev pub SettingValue : Type 0
SettingValue = List ℕ

-- The unsigned number of the first n bytes.
unfoldable pub unsigned : ℕ → SettingValue → ℕ
unsigned zero bs = 0
unsigned (suc n) [] = 0
unsigned (suc n) (b ∷ bs) = b + 256 * unsigned n bs

-- The number of the bytes in two's complement, moved up by half of the range.
unfoldable pub signed_key : ℕ → ℕ → ℕ
signed_key half n = (n + half) % (half + half)

-- IEEE 754 numbers lie by sign and magnitude; the key orders them, and puts -0 and +0 together.
unfoldable pub float_key : ℕ → ℕ → ℕ
float_key half n = if ltb n half then half + n else half - (n - half)

-- NaN: all exponent bits set and the fraction not 0; `inf` is the bit pattern of infinity.
unfoldable pub is_nan : ℕ → ℕ → ℕ → Bool
is_nan half inf n = ltb inf (n % half)

unfoldable pub float_less : ℕ → ℕ → ℕ → ℕ → Bool
unfolding float_key is_nan
float_less half inf a b =
    not (is_nan half inf a) && not (is_nan half inf b) && ltb (float_key half a) (float_key half b)

unfoldable pub value_less_than : RegisterType → SettingValue → SettingValue → Bool
unfolding unsigned signed_key float_less
value_less_than st_u8 a b = ltb (unsigned 1 a) (unsigned 1 b)
value_less_than st_u16 a b = ltb (unsigned 2 a) (unsigned 2 b)
value_less_than st_u32 a b = ltb (unsigned 4 a) (unsigned 4 b)
value_less_than st_u64 a b = ltb (unsigned 8 a) (unsigned 8 b)
value_less_than st_i8 a b =
    ltb (signed_key (2 ^ 7) (unsigned 1 a)) (signed_key (2 ^ 7) (unsigned 1 b))
value_less_than st_i16 a b =
    ltb (signed_key (2 ^ 15) (unsigned 2 a)) (signed_key (2 ^ 15) (unsigned 2 b))
value_less_than st_i32 a b =
    ltb (signed_key (2 ^ 31) (unsigned 4 a)) (signed_key (2 ^ 31) (unsigned 4 b))
value_less_than st_i64 a b =
    ltb (signed_key (2 ^ 63) (unsigned 8 a)) (signed_key (2 ^ 63) (unsigned 8 b))
value_less_than st_f32 a b = float_less (2 ^ 31) 0x7f800000 (unsigned 4 a) (unsigned 4 b)
value_less_than st_f64 a b = float_less (2 ^ 63) 0x7ff0000000000000 (unsigned 8 a) (unsigned 8 b)
value_less_than st_bool a b = false
value_less_than st_type_count a b = false

unfoldable pub value_greater_than : RegisterType → SettingValue → SettingValue → Bool
unfolding unsigned signed_key float_less
value_greater_than st_u8 a b = ltb (unsigned 1 b) (unsigned 1 a)
value_greater_than st_u16 a b = ltb (unsigned 2 b) (unsigned 2 a)
value_greater_than st_u32 a b = ltb (unsigned 4 b) (unsigned 4 a)
value_greater_than st_u64 a b = ltb (unsigned 8 b) (unsigned 8 a)
value_greater_than st_i8 a b =
    ltb (signed_key (2 ^ 7) (unsigned 1 b)) (signed_key (2 ^ 7) (unsigned 1 a))
value_greater_than st_i16 a b =
    ltb (signed_key (2 ^ 15) (unsigned 2 b)) (signed_key (2 ^ 15) (unsigned 2 a))
value_greater_than st_i32 a b =
    ltb (signed_key (2 ^ 31) (unsigned 4 b)) (signed_key (2 ^ 31) (unsigned 4 a))
value_greater_than st_i64 a b =
    ltb (signed_key (2 ^ 63) (unsigned 8 b)) (signed_key (2 ^ 63) (unsigned 8 a))
value_greater_than st_f32 a b = float_less (2 ^ 31) 0x7f800000 (unsigned 4 b) (unsigned 4 a)
value_greater_than st_f64 a b = float_less (2 ^ 63) 0x7ff0000000000000 (unsigned 8 b) (unsigned 8 a)
value_greater_than st_bool a b = false
value_greater_than st_type_count a b = false

-- The member that the type names is copied from the memory; the rest of the union stays.
unfoldable pub read_value_from_mem : RegisterType → List ℕ → SettingValue → SettingValue
unfolding register_type_size
read_value_from_mem type mem out =
    take (register_type_size type) mem ++ drop (register_type_size type) out

unfoldable pub write_value_to_mem : RegisterType → List ℕ → SettingValue → List ℕ
unfolding register_type_size
write_value_to_mem type mem val =
    take (register_type_size type) val ++ drop (register_type_size type) mem

-- `struct setting_reg`; the flags by bit.
pub record SettingReg : Type 0 where
  pub addr : ℕ
  pub offset : ℕ
  pub type : RegisterType
  pub readable : Bool
  pub writable : Bool
  pub no_range : Bool
  pub min : SettingValue
  pub max : SettingValue
  pub dflt : SettingValue

unfoldable pub settings_reg_validate_range : SettingReg → SettingValue → Bool
unfolding value_less_than value_greater_than
settings_reg_validate_range reg value =
    if reg.no_range
    then true
    else if value_less_than reg.type value reg.min
    then false
    else if value_greater_than reg.type value reg.max
    then false
    else true

unfoldable pub settings_reg_get_default : SettingReg → SettingValue
settings_reg_get_default reg = reg.dflt
