-- ===== src/Groups/Configs.antt =====
-- The groups of motor_settings.c and network_settings.c, and their validators on the bytes of the
-- structs.
use zephyr_io.Prelude.{
  ℕ, ◌+◌, ◌*◌, List, [], ◌∷◌, true, false, ℤ, pos, neg, einval, get_or, ltb, ◌==◌, if◌then◌else◌,
}
use zephyr_io.Groups.Registry.{
  SettingType, SettingField, SettingGroup, setting_u8, setting_u16, setting_u32, setting_i8,
  setting_i16, setting_bool,
}

-- A field at the same place in the registers and in the struct.
abbrev field : ℕ → SettingType → SettingField
field place type = record {
  reg = place;
  offset = place;
  type = type;
  readable = true;
  writable = true;
}

abbrev pub motor_fields : List SettingField
motor_fields =
    field 0 setting_u16
    ∷ field 2 setting_u16
    ∷ field 4 setting_bool
    ∷ field 5 setting_u8
    ∷ record { reg = 6; offset = 6; type = setting_u8; readable = true; writable = false }
    ∷ field 7 setting_i8
    ∷ field 8 setting_i16
    ∷ []

abbrev pub motor_group : SettingGroup
motor_group = record { base_reg = 0x100; size = 10; fields = motor_fields }

abbrev pub network_fields : List SettingField
network_fields = field 0 setting_u32 ∷ field 4 setting_u16 ∷ field 6 setting_bool ∷ []

abbrev pub network_group : SettingGroup
network_group = record { base_reg = 0x200; size = 8; fields = network_fields }

-- A uint16_t member of a struct, little endian.
abbrev pub u16_at : List ℕ → ℕ → ℕ
u16_at bs i = get_or bs i 0 + 256 * get_or bs (i + 1) 0

-- `speed` lies at 0, `accel` at 2 and `direction` at 5 of struct motor_config.
unfoldable pub motor_validate : List ℕ → ℤ
motor_validate cfg =
    if ltb 10000 (u16_at cfg 0)
    then neg einval
    else if ltb 5000 (u16_at cfg 2)
    then neg einval
    else if ltb 1 (get_or cfg 5 0)
    then neg einval
    else pos 0

-- `port` lies at 4 of struct network_config.
unfoldable pub network_validate : List ℕ → ℤ
network_validate cfg = if u16_at cfg 4 == 0 then neg einval else pos 0
