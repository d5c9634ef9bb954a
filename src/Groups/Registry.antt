-- ===== src/Groups/Registry.antt =====
-- The types of settings.h, the registry of observables and the lookup by register.
use mathlib.Core.Option
use zephyr_io.Prelude.{
  ℕ, ◌+◌, ◌-◌, ◌%◌, ◌^◌, Option, none, some, List, [], ◌∷◌, ◌++◌, Bool, ℤ, pos, negsuc, neg, einval,
  enomem, length, get_elem?, ltb, leb, ◌==◌, ◌&&◌, if◌then◌else◌,
}
use zephyr_io.World.{Ptr, World}
use zephyr_io.Kernel.{Program}

-- `enum setting_type`
pub data SettingType : Type 0 where
  setting_u8 : SettingType
  setting_u16 : SettingType
  setting_u32 : SettingType
  setting_u64 : SettingType
  setting_i8 : SettingType
  setting_i16 : SettingType
  setting_i32 : SettingType
  setting_i64 : SettingType
  setting_f32 : SettingType
  setting_f64 : SettingType
  setting_bool : SettingType

unfoldable pub setting_type_size : SettingType → ℕ
setting_type_size setting_u8 = 1
setting_type_size setting_u16 = 2
setting_type_size setting_u32 = 4
setting_type_size setting_u64 = 8
setting_type_size setting_i8 = 1
setting_type_size setting_i16 = 2
setting_type_size setting_i32 = 4
setting_type_size setting_i64 = 8
setting_type_size setting_f32 = 4
setting_type_size setting_f64 = 8
setting_type_size setting_bool = 1

-- `struct setting_field`, without its name; the flags by bit.
pub record SettingField : Type 0 where
  pub reg : ℕ
  pub offset : ℕ
  pub type : SettingType
  pub readable : Bool
  pub writable : Bool

-- `struct setting_group`, without its name.
pub record SettingGroup : Type 0 where
  pub base_reg : ℕ
  pub size : ℕ
  pub fields : List SettingField

abbrev pub settings_max_observables : ℕ
settings_max_observables = 8

-- The registry is the list of its used entries.
unfoldable pub settings_register : Option Ptr → List Ptr → ℤ × List Ptr
settings_register none registry = (neg einval, registry)
settings_register (some obs) registry =
    if leb settings_max_observables (length registry)
    then (neg enomem, registry)
    else (pos 0, registry ++ obs ∷ [])

unfoldable pub settings_get_count : List Ptr → ℕ
settings_get_count registry = length registry

unfoldable pub settings_get_at : ℤ → List Ptr → Option Ptr
settings_get_at (pos index) registry = get_elem? registry index
settings_get_at (negsuc n) registry = none

-- The inner loop of `settings_find_reg`: the field of the group at the register.
unfoldable pub field_at : ℕ → ℕ → List SettingField → Option SettingField
field_at reg base_reg [] = none
field_at reg base_reg (field ∷ fields) =
    let rest = field_at reg base_reg fields in
    if reg == (base_reg + field.reg) % 2 ^ 16 then some field else rest

-- The pair with an observable, or the answer from the rest of the registry.
unfoldable pub or_else {ℓ} : {A : Type ℓ} → Ptr → Option A → Option (Ptr × A) → Option (Ptr × A)
or_else obs none rest = rest
or_else obs (some a) rest = some (obs, a)

module _ {K : Type 0} (p : Program K) (group_at : Ptr → SettingGroup) (w : World K) where
  unfoldable pub settings_get_group : Ptr → Option SettingGroup
  settings_get_group obs = elim (p.sink_at (w.observables obs).owner_sink).user_data [
    | none ↦ none
    | some g ↦ some (group_at g)
  ]

  -- What a group has at a register.
  unfoldable pub field_in : ℕ → Option SettingGroup → Option SettingField
  unfolding field_at
  field_in reg none = none
  field_in reg (some grp) = field_at reg grp.base_reg grp.fields

  -- `none` is -ENOENT.
  unfoldable pub settings_find_reg : ℕ → List Ptr → Option (Ptr × SettingField)
  unfolding field_in settings_get_group or_else
  settings_find_reg reg [] = none
  settings_find_reg reg (obs ∷ registry) =
      or_else obs (field_in reg (settings_get_group obs)) (settings_find_reg reg registry)

  unfoldable pub settings_find_field : ℕ → List Ptr → Option SettingField
  unfolding settings_find_reg
  settings_find_field reg registry = Option.map (λ found. found.1) (settings_find_reg reg registry)

  -- The offset of a register in a group's declared range.
  unfoldable pub offset_in : ℕ → Option SettingGroup → Option ℕ
  offset_in reg none = none
  offset_in reg (some grp) =
      if leb grp.base_reg reg && ltb reg (grp.base_reg + grp.size)
      then some (reg - grp.base_reg)
      else none

  -- `none` is -ENOENT; the pair has the observable and the offset.
  unfoldable pub settings_find_obs : ℕ → List Ptr → Option (Ptr × ℕ)
  unfolding offset_in settings_get_group or_else
  settings_find_obs reg [] = none
  settings_find_obs reg (obs ∷ registry) =
      or_else obs (offset_in reg (settings_get_group obs)) (settings_find_obs reg registry)
