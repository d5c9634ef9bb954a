-- ===== src/Table/Api.antt =====
-- The interface of settings_api.h: start, reads and writes by address and by register, defaults.
use zephyr_io.Prelude.{
  ℕ, ◌-◌, Option, none, some, List, [], ◌∷◌, Bool, true, ℤ, pos, neg, is_neg, einval, erange,
  enoent, enxio, erofs, ◌==◌, not, take, drop, is_none, if◌then◌else◌,
}
use zephyr_io.World.{Ptr, World, update}
use zephyr_io.Kernel.{Kernel, Program}
use zephyr_io.Table.Value.{
  SettingValue, SettingReg, settings_reg_validate_range, read_value_from_mem,
}
use zephyr_io.Table.Areas.{
  SettingRegCtx, SettingArea, to_u16, validate_area_addresses, validate_reg_area,
  settings_find_area, setting_area_get_reg_ctx,
}
use zephyr_io.Table.Access.{
  Settings, write_value_at, copy_out, change_and_publish, run_validator, apply_reg_defaults,
  setting_reg_read, setting_reg_write,
}

module _ {K : Type 0} (k : Kernel K) (p : Program K) (t : Settings K) where
  -- `settings_reg_get` from its look at the area's context.
  unfoldable pub get_in : Bool → SettingReg → Ptr → Option SettingRegCtx → World K → ℤ × World K
  unfolding copy_out read_value_from_mem
  get_in initialized reg value none w = if initialized then (neg einval, w) else (neg enxio, w)
  get_in initialized reg value (some ctx) w =
      let w1 =
        copy_out k p t ctx.observable
          (λ bs. read_value_from_mem reg.type (drop reg.offset bs) (w.memory value)) value w in
      if not initialized
      then (neg enxio, w)
      else if not reg.readable
      then (neg erofs, w)
      else (pos 0, w1)

  unfoldable pub settings_reg_get :
      Bool → Option SettingArea → Option SettingReg → Option Ptr → World K → ℤ × World K
  unfolding setting_area_get_reg_ctx get_in
  settings_reg_get initialized (some area) (some reg) (some value) w =
      get_in initialized reg value (setting_area_get_reg_ctx t.reg_read t.ctx_at area) w
  settings_reg_get initialized _ _ _ w = (neg einval, w)

  -- `temp`: the value with the proposed register, seen by the observable's validator.
  unfoldable pub validate_proposed :
      SettingArea → Ptr → SettingReg → SettingValue → World K → ℤ × World K
  unfolding copy_out run_validator
  validate_proposed area obs reg value w =
      let w1 = copy_out k p t obs (take area.size) t.temp w in
      let w2 = record w1 {
        memory =
            update w1.memory t.temp (write_value_at reg.type (w1.memory t.temp) reg.offset value);
      } in
      let checked = run_validator k p t obs w2 in
      if is_none (w.observables obs).validator then (pos 0, w) else checked

  -- `settings_reg_set` from its look at the area's context.
  unfoldable pub set_in :
      Bool → SettingArea → SettingReg → SettingValue → Option SettingRegCtx → World K → ℤ × World K
  unfolding settings_reg_validate_range validate_proposed change_and_publish
  set_in initialized area reg value none w = if initialized then (neg einval, w) else (neg enxio, w)
  set_in initialized area reg value (some ctx) w =
      let (ret, w1) = validate_proposed area ctx.observable reg value w in
      let w2 =
        change_and_publish k p t ctx.observable
          (λ v bs. write_value_at reg.type bs reg.offset value) w1 in
      if not initialized
      then (neg enxio, w)
      else if not reg.writable
      then (neg erofs, w)
      else if not (settings_reg_validate_range reg value)
      then (neg erange, w)
      else if is_neg ret
      then (ret, w1)
      else (pos 0, w2)

  unfoldable pub settings_reg_set :
      Bool → Option SettingArea → Option SettingReg → SettingValue → World K → ℤ × World K
  unfolding setting_area_get_reg_ctx set_in
  settings_reg_set initialized (some area) (some reg) value w =
      set_in initialized area reg value (setting_area_get_reg_ctx t.reg_read t.ctx_at area) w
  settings_reg_set initialized _ _ value w = (neg einval, w)

  -- One area in the second loop of `settings_sys_init`, and the areas behind it.
  unfoldable pub init_one :
      SettingArea → Option SettingRegCtx → (World K → ℤ × World K) → World K → ℤ × World K
  unfolding validate_reg_area apply_reg_defaults
  init_one area none rest w = rest w
  init_one area (some ctx) rest w =
      let ret = validate_reg_area area.size ctx.regs in
      let later = rest (apply_reg_defaults k p t ctx w) in if is_neg ret then (ret, w) else later

  -- The loop: the error, or 0 and that all areas are ready.
  unfoldable pub init_areas : List SettingArea → World K → ℤ × World K
  unfolding setting_area_get_reg_ctx init_one
  init_areas [] w = (pos 0, w)
  init_areas (area ∷ areas) w =
      init_one area (setting_area_get_reg_ctx t.reg_read t.ctx_at area) (λ v. init_areas areas v) w

  -- The result, `settings_initialized` after the call, and the world.
  unfoldable pub settings_sys_init : Bool → World K → ℤ × Bool × World K
  unfolding validate_area_addresses init_areas
  settings_sys_init initialized w =
      let ret = validate_area_addresses t.areas in
      let (ret2, w2) = init_areas t.areas w in
      if is_neg ret
      then (ret, initialized, w)
      else if is_neg ret2
      then (ret2, initialized, w2)
      else (pos 0, true, w2)

  -- A call through `area->read` and through `area->write`.
  unfoldable pub area_read : SettingArea → ℕ → Ptr → ℕ → World K → ℤ × World K
  unfolding setting_reg_read
  area_read area offset buf len w =
      if area.read == t.reg_read
      then setting_reg_read k p t area offset buf len w
      else t.call_read area.read area offset buf len w

  unfoldable pub area_write : SettingArea → ℕ → Ptr → ℕ → World K → ℤ × World K
  unfolding setting_reg_write
  area_write area offset buf len w =
      if area.write == t.reg_write
      then setting_reg_write k p t area offset buf len w
      else t.call_write area.write area offset buf len w

  unfoldable pub settings_read : Bool → ℕ → Option Ptr → ℕ → World K → ℤ × World K
  unfolding settings_find_area area_read
  settings_read initialized addr none len w = (neg einval, w)
  settings_read initialized addr (some buf) len w = elim (settings_find_area t.areas addr) [
    | none ↦ if initialized then (neg enoent, w) else (neg enxio, w)
    | some area ↦
        if not initialized
        then (neg enxio, w)
        else area_read area (to_u16 (addr - area.base)) buf len w
  ]

  unfoldable pub settings_write : Bool → ℕ → Option Ptr → ℕ → World K → ℤ × World K
  unfolding settings_find_area area_write
  settings_write initialized addr none len w = (neg einval, w)
  settings_write initialized addr (some buf) len w = elim (settings_find_area t.areas addr) [
    | none ↦ if initialized then (neg enoent, w) else (neg enxio, w)
    | some area ↦
        if not initialized
        then (neg enxio, w)
        else area_write area (to_u16 (addr - area.base)) buf len w
  ]

  -- The loop of `settings_reset_defaults` over all areas.
  unfoldable pub reset_all : List SettingArea → World K → World K
  unfolding setting_area_get_reg_ctx apply_reg_defaults
  reset_all [] w = w
  reset_all (area ∷ areas) w = elim (setting_area_get_reg_ctx t.reg_read t.ctx_at area) [
    | none ↦ reset_all areas w
    | some ctx ↦ reset_all areas (apply_reg_defaults k p t ctx w)
  ]

  unfoldable pub settings_reset_defaults : Bool → Option SettingArea → World K → ℤ × World K
  unfolding setting_area_get_reg_ctx apply_reg_defaults reset_all
  settings_reset_defaults initialized none w =
      if initialized then (pos 0, reset_all t.areas w) else (neg enxio, w)
  settings_reset_defaults initialized (some area) w =
      elim (setting_area_get_reg_ctx t.reg_read t.ctx_at area) [
        | none ↦ if initialized then (neg einval, w) else (neg enxio, w)
        | some ctx ↦ if initialized then (pos 0, apply_reg_defaults k p t ctx w) else (neg enxio, w)
      ]
