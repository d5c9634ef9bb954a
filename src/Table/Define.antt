-- ===== src/Table/Define.antt =====
-- The definition macros of settings_api.h: the static initializers of registers and areas.
use zephyr_io.Prelude.{ℕ, List, Bool, true, false}
use zephyr_io.World.{Ptr}
use zephyr_io.Table.Value.{
  RegisterType, SettingValue, SettingReg, st_u8, st_u16, st_u32, st_u64, st_i8, st_i16, st_i32,
  st_i64, st_f32, st_f64, st_bool,
}
use zephyr_io.Table.Areas.{SettingArea, SettingRegCtx}
use zephyr_io.Shell.Values.{in_union}

-- The C type of a member of a struct, as `_Generic` tells them apart.
pub data MemberType : Type 0 where
  c_uint8 c_uint16 c_uint32 c_uint64 : MemberType
  c_int8 c_int16 c_int32 c_int64 : MemberType
  c_float c_double c_bool c_other : MemberType

-- ST_TYPE_DETECT
unfoldable pub st_type_detect : MemberType → RegisterType
st_type_detect c_uint8 = st_u8
st_type_detect c_uint16 = st_u16
st_type_detect c_uint32 = st_u32
st_type_detect c_uint64 = st_u64
st_type_detect c_int8 = st_i8
st_type_detect c_int16 = st_i16
st_type_detect c_int32 = st_i32
st_type_detect c_int64 = st_i64
st_type_detect c_float = st_f32
st_type_detect c_double = st_f64
st_type_detect c_bool = st_bool
st_type_detect c_other = st_u8

-- ST_VALUE: the bit pattern of a value in the member of the union for its type.
unfoldable pub st_value : MemberType → ℕ → SettingValue
unfolding in_union
st_value c_uint8 n = in_union 1 n
st_value c_uint16 n = in_union 2 n
st_value c_uint32 n = in_union 4 n
st_value c_uint64 n = in_union 8 n
st_value c_int8 n = in_union 1 n
st_value c_int16 n = in_union 2 n
st_value c_int32 n = in_union 4 n
st_value c_int64 n = in_union 8 n
st_value c_float n = in_union 4 n
st_value c_double n = in_union 8 n
st_value c_bool n = in_union 1 n
st_value c_other n = in_union 1 n

-- A member of a struct: `offsetof` and its type.
pub record Member : Type 0 where
  pub offset : ℕ
  pub type : MemberType

-- The access flags ST_FLAG_R, ST_FLAG_W and ST_FLAG_RW.
pub data Flags : Type 0 where
  st_flag_r st_flag_w st_flag_rw : Flags

abbrev pub can_read : Flags → Bool
can_read st_flag_r = true
can_read st_flag_w = false
can_read st_flag_rw = true

abbrev pub can_write : Flags → Bool
can_write st_flag_r = false
can_write st_flag_w = true
can_write st_flag_rw = true

-- REGISTER
unfoldable pub define_register : ℕ → Member → ℕ → ℕ → ℕ → Flags → SettingReg
unfolding st_type_detect st_value
define_register addr member min max dflt flags = record {
  addr = addr;
  offset = member.offset;
  type = st_type_detect member.type;
  readable = can_read flags;
  writable = can_write flags;
  no_range = false;
  min = st_value member.type min;
  max = st_value member.type max;
  dflt = st_value member.type dflt;
}

-- REGISTER_BOOL; the bounds that it leaves out are 0.
unfoldable pub define_register_bool : ℕ → Member → ℕ → Flags → SettingReg
unfolding in_union
define_register_bool addr member dflt flags = record {
  addr = addr;
  offset = member.offset;
  type = st_bool;
  readable = can_read flags;
  writable = can_write flags;
  no_range = true;
  min = in_union 1 0;
  max = in_union 1 0;
  dflt = in_union 1 dflt;
}

-- SETTING_REG_AREA_DEFINE, with the addresses of the callbacks, of the context and of the
-- observable; the size is that of the struct.
unfoldable pub setting_reg_area_define : ℕ → ℕ → Ptr → Ptr → Ptr → SettingArea
setting_reg_area_define base size reg_read reg_write ctx = record {
  base = base;
  size = size;
  read = reg_read;
  write = reg_write;
  ctx = ctx;
}

unfoldable pub reg_ctx_define : Ptr → List SettingReg → SettingRegCtx
reg_ctx_define observable regs = record { observable = observable; regs = regs }
