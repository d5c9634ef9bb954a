-- ===== src/Table/SampleAreas.antt =====
-- motor_settings.c and sensor_settings.c: the registers of the two areas, their validators on the
-- bytes of the structs, and the handlers of changes.
use zephyr_io.Prelude.{
  Option, some, ℕ, ◌-◌, ◌^◌, List, [], ◌∷◌, ℤ, pos, neg, einval, get_or, ◌==◌, ◌&&◌, not,
  if◌then◌else◌,
}
use zephyr_io.World.{Ptr, World}
use zephyr_io.Kernel.{Kernel, Program}
use zephyr_io.Observable.{weave_observable_get_unchecked}
use zephyr_io.Table.Value.{SettingReg}
use zephyr_io.Table.Areas.{SettingArea}
use zephyr_io.Table.Access.{Settings}
use zephyr_io.Table.Define.{
  Member, st_flag_r, st_flag_rw, c_uint8, c_uint16, c_int16, c_float, define_register,
  setting_reg_area_define, reg_ctx_define,
}
use zephyr_io.Groups.Configs.{u16_at}

abbrev pub motor_base_addr : ℕ
motor_base_addr = 0x100

-- `struct motor_config` has 8 bytes.
abbrev pub speed : Member
speed = record { offset = 0; type = c_uint16 }

abbrev accel : Member
accel = record { offset = 2; type = c_uint16 }

abbrev direction : Member
direction = record { offset = 4; type = c_uint8 }

abbrev pub enabled : Member
enabled = record { offset = 5; type = c_uint8 }

abbrev status : Member
status = record { offset = 6; type = c_uint8 }

unfoldable pub motor_validate : List ℕ → ℤ
motor_validate cfg = if not (get_or cfg 5 0 == 0) && u16_at cfg 0 == 0 then neg einval else pos 0

unfoldable pub motor_regs : List SettingReg
unfolding define_register
motor_regs =
    define_register 0 speed 0 10000 1000 st_flag_rw
    ∷ define_register 2 accel 0 5000 500 st_flag_rw
    ∷ define_register 4 direction 0 1 0 st_flag_rw
    ∷ define_register 5 enabled 0 1 0 st_flag_rw
    ∷ define_register 6 status 0 2 0 st_flag_r
    ∷ []

abbrev pub sensor_base_addr : ℕ
sensor_base_addr = 0x200

-- `struct sensor_config` has 12 bytes, the float on a multiple of 4.
abbrev sample_rate : Member
sample_rate = record { offset = 0; type = c_uint16 }

abbrev temp_offset : Member
temp_offset = record { offset = 2; type = c_int16 }

abbrev gain : Member
gain = record { offset = 4; type = c_float }

abbrev channel_mask : Member
channel_mask = record { offset = 8; type = c_uint8 }

unfoldable pub sensor_validate : List ℕ → ℤ
sensor_validate cfg = if get_or cfg 8 0 == 0 then neg einval else pos 0

-- The bit patterns of -50 and of the floats 0.1, 10 and 1.
unfoldable pub sensor_regs : List SettingReg
unfolding define_register
sensor_regs =
    define_register 0 sample_rate 1 1000 100 st_flag_rw
    ∷ define_register 2 temp_offset (2 ^ 16 - 50) 50 0 st_flag_rw
    ∷ define_register 4 gain 0x3dcccccd 0x41200000 0x3f800000 st_flag_rw
    ∷ define_register 8 channel_mask 1 0xff 0x0f st_flag_rw
    ∷ []

-- The addresses of the contexts of the two areas.
abbrev pub motor_ctx : Ptr
motor_ctx = 3

abbrev pub sensor_ctx_addr : Ptr
sensor_ctx_addr = 4

unfoldable pub motor_area : SettingArea
unfolding setting_reg_area_define
motor_area = setting_reg_area_define motor_base_addr 8 1 2 motor_ctx

unfoldable pub sensor_area : SettingArea
unfolding setting_reg_area_define
sensor_area = setting_reg_area_define sensor_base_addr 12 1 2 sensor_ctx_addr

-- The image: the two areas of the section, each with its context; setting_reg_read lies at 1 and
-- setting_reg_write at 2.
unfoldable pub sample_settings : {K : Type 0} → Ptr → Ptr → Ptr → Settings K
unfolding motor_area sensor_area reg_ctx_define motor_regs sensor_regs
sample_settings motor_obs sensor_obs temp = record {
  areas = motor_area ∷ sensor_area ∷ [];
  ctx_at = λ a.
      if a == motor_ctx
      then reg_ctx_define motor_obs motor_regs
      else reg_ctx_define sensor_obs sensor_regs;
  reg_read = 1;
  reg_write = 2;
  temp = temp;
  call_read = λ f area offset buf len w. (pos 0, w);
  call_write = λ f area offset buf len w. (pos 0, w);
}

-- The handlers of changes, which read the value to print it; `cfg` is the struct on the stack.
module _ {K : Type 0} (k : Kernel K) (p : Program K) (cfg : Ptr) where
  unfoldable pub motor_on_change : Option Ptr → Option Ptr → World K → World K
  motor_on_change obs user_data w = (weave_observable_get_unchecked k p obs (some cfg) w).1

  unfoldable sensor_on_change : Option Ptr → Option Ptr → World K → World K
  sensor_on_change obs user_data w = (weave_observable_get_unchecked k p obs (some cfg) w).1
