-- ===== src/Table/Areas.antt =====
-- Areas of the address space and their registers: the checks at start and the lookup by address.
use zephyr_io.Prelude.{
  ℕ, ◌+◌, ◌-◌, ◌%◌, ◌^◌, Option, none, some, List, [], ◌∷◌, Bool, false, ℤ, pos, neg, einval,
  erange, ltb, leb, ◌==◌, ◌&&◌, ◌||◌, not, if◌then◌else◌,
}
use zephyr_io.World.{Ptr}
use zephyr_io.Table.Value.{SettingReg, register_type_size, settings_reg_validate_range}

-- `struct setting_area`, without its name.
pub record SettingArea : Type 0 where
  pub base : ℕ
  pub size : ℕ
  pub read : Ptr
  pub write : Ptr
  pub ctx : Ptr

-- `struct setting_reg_ctx`, with its array of registers.
pub record SettingRegCtx : Type 0 where
  pub observable : Ptr
  pub regs : List SettingReg

-- The conversion of a number to uint16_t.
abbrev pub to_u16 : ℕ → ℕ
to_u16 n = n % 2 ^ 16

-- The parameters are uint16_t.
unfoldable pub ranges_overlap : ℕ → ℕ → ℕ → ℕ → Bool
ranges_overlap a_start a_end b_start b_end =
    ltb (to_u16 a_start) (to_u16 b_end) && ltb (to_u16 b_start) (to_u16 a_end)

-- The inner loop: an area against those behind it in the section.
unfoldable pub overlaps_any : SettingArea → List SettingArea → Bool
unfolding ranges_overlap
overlaps_any ai [] = false
overlaps_any ai (aj ∷ areas) =
    ranges_overlap ai.base (to_u16 (ai.base + ai.size)) aj.base (to_u16 (aj.base + aj.size))
    || overlaps_any ai areas

unfoldable pub validate_area_addresses : List SettingArea → ℤ
unfolding overlaps_any
validate_area_addresses [] = pos 0
validate_area_addresses (ai ∷ areas) =
    let rest = validate_area_addresses areas in if overlaps_any ai areas then neg einval else rest

-- The inner loop: a register against those behind it, by address and by place in the struct.
unfoldable pub reg_overlaps_any : SettingReg → List SettingReg → Bool
unfolding ranges_overlap register_type_size
reg_overlaps_any ri [] = false
reg_overlaps_any ri (rj ∷ regs) =
    ranges_overlap ri.addr (ri.addr + register_type_size ri.type) rj.addr
      (rj.addr + register_type_size rj.type)
    || ranges_overlap ri.offset (ri.offset + register_type_size ri.type) rj.offset
        (rj.offset + register_type_size rj.type)
    || reg_overlaps_any ri regs

unfoldable pub validate_reg_area : ℕ → List SettingReg → ℤ
unfolding reg_overlaps_any settings_reg_validate_range register_type_size
validate_reg_area size [] = pos 0
validate_reg_area size (ri ∷ regs) =
    let rest = validate_reg_area size regs in
    if ltb size (ri.offset + register_type_size ri.type)
    then neg einval
    else if ltb size (ri.addr + register_type_size ri.type)
    then neg einval
    else if reg_overlaps_any ri regs
    then neg einval
    else if not (settings_reg_validate_range ri ri.dflt)
    then neg erange
    else rest

unfoldable pub settings_area_count : List SettingArea → ℕ
settings_area_count [] = 0
settings_area_count (area ∷ areas) = settings_area_count areas + 1

unfoldable pub settings_find_area : List SettingArea → ℕ → Option SettingArea
settings_find_area [] addr = none
settings_find_area (area ∷ areas) addr =
    let rest = settings_find_area areas addr in
    if leb area.base addr && ltb addr (area.base + area.size) then some area else rest

-- The loop of `settings_find_reg`.
unfoldable pub reg_at : List SettingReg → ℕ → Option SettingReg
reg_at [] offset = none
reg_at (r ∷ regs) offset =
    let rest = reg_at regs offset in if r.addr == offset then some r else rest

-- `reg_read` is the address of setting_reg_read, `ctx_at` what the contexts of areas point to.
module _ (reg_read : Ptr) (ctx_at : Ptr → SettingRegCtx) where
  unfoldable pub setting_area_get_reg_ctx : SettingArea → Option SettingRegCtx
  setting_area_get_reg_ctx area = if area.read == reg_read then some (ctx_at area.ctx) else none

  unfoldable pub settings_find_reg : List SettingArea → ℕ → Option SettingReg
  unfolding settings_find_area setting_area_get_reg_ctx reg_at
  settings_find_reg areas addr = elim (settings_find_area areas addr) [
    | none ↦ none
    | some area ↦ elim (setting_area_get_reg_ctx area) [
      | none ↦ none
      | some ctx ↦ reg_at ctx.regs (to_u16 (addr - area.base))
    ]
  ]
