-- ===== src/Table/Start.antt =====
-- What a successful start of the settings table establishes.
use zephyr_io.Prelude.{
  ℕ, ◌+◌, ◌≡◌, ◌⊎◌, ◌<◌, inl, inr, refl, Option, none, some, List, [], ◌∷◌, Bool, true, false, ℤ,
  pos, neg, is_neg, einval, erange, arith, ltb, not, if◌then◌else◌, Bool-cases,
}
use mathlib.Core.Path.{subst}
use zephyr_io.World.{World}
use zephyr_io.Kernel.{Kernel, Program}
use zephyr_io.Table.Value.{SettingReg, register_type_size, settings_reg_validate_range}
use zephyr_io.Table.Areas.{
  SettingArea, SettingRegCtx, overlaps_any, reg_overlaps_any, validate_area_addresses,
  validate_reg_area, setting_area_get_reg_ctx,
}
use zephyr_io.Table.Access.{Settings, apply_reg_defaults}
use zephyr_io.Table.Api.{init_one, init_areas, settings_sys_init}
use zephyr_io.Table.Layout.{AllFit, Disjoint, validate_area_addresses-Disjoint}
use zephyr_io.Table.Registers.{WellFormed, validate_reg_area-WellFormed}

addresses_result :
    (areas : List SettingArea)
    → is_neg (validate_area_addresses areas) ≡ false
    → validate_area_addresses areas ≡ pos 0
unfolding validate_area_addresses
addresses_result [] h = refl
addresses_result (a ∷ areas) h = elim (Bool-cases (overlaps_any a areas)) [
  | inl e ↦ absurd (ground arith)
  | inr e ↦ rw e (addresses_result areas (ground arith))
]

-- A chain of tests that each lead to an error.
chain_result :
    (a b c d : Bool) (z : ℤ)
    → (is_neg z ≡ false → z ≡ pos 0)
    → is_neg (
        if a
        then neg einval
        else if b
        then neg einval
        else if c
        then neg einval
        else if not d
        then neg erange
        else z)
      ≡ false
    → (if a
        then neg einval
        else if b
        then neg einval
        else if c
        then neg einval
        else if not d
        then neg erange
        else z)
      ≡ pos 0
chain_result true b c d z f h = absurd (ground arith)
chain_result false true c d z f h = absurd (ground arith)
chain_result false false true d z f h = absurd (ground arith)
chain_result false false false true z f h = f h
chain_result false false false false z f h = absurd (ground arith)

regs_result :
    (size : ℕ) (regs : List SettingReg)
    → is_neg (validate_reg_area size regs) ≡ false
    → validate_reg_area size regs ≡ pos 0
unfolding validate_reg_area
regs_result size [] h = refl
regs_result size (r ∷ regs) h =
    chain_result (ltb size (r.offset + register_type_size r.type))
      (ltb size (r.addr + register_type_size r.type)) (reg_overlaps_any r regs)
      (settings_reg_validate_range r r.dflt) (validate_reg_area size regs) (regs_result size regs) h

same_ctx : {a b : SettingRegCtx} → Path (Option SettingRegCtx) (some a) (some b) → a ≡ b
same_ctx h = ground arith

refused :
    {W : Type 0} (ret : ℤ) (later : ℤ × W) (w : W)
    → is_neg ret ≡ true
    → ¬ (is_neg (if is_neg ret then (ret, w) else later).0 ≡ false)
refused ret later w e h = absurd (ground arith)

passed :
    {W : Type 0} (ret : ℤ) (later : ℤ × W) (w : W)
    → is_neg ret ≡ false
    → is_neg (if is_neg ret then (ret, w) else later).0 ≡ false
    → is_neg later.0 ≡ false
passed ret later w e h = ground arith

module _ {K : Type 0} (k : Kernel K) (p : Program K) (t : Settings K) where
  -- The registers of every register area are well formed.
  abbrev pub AllWellFormed : List SettingArea → Type 0
  AllWellFormed [] = Unit
  AllWellFormed (area ∷ areas) =
      ((ctx : SettingRegCtx)
        → setting_area_get_reg_ctx t.reg_read t.ctx_at area ≡ some ctx
        → WellFormed area.size ctx.regs)
      × AllWellFormed areas

  one_WellFormed :
      (area : SettingArea) (c : Option SettingRegCtx) (rest : World K → ℤ × World K) (w : World K)
      → area.size < 65536
      → is_neg (init_one k p t area c rest w).0 ≡ false
      → ((ctx : SettingRegCtx) → c ≡ some ctx → WellFormed area.size ctx.regs)
        × ((v : World K) × (is_neg (rest v).0 ≡ false))
  unfolding init_one
  one_WellFormed area none rest w small h = ((λ ctx e. absurd (ground arith)), (w, h))
  one_WellFormed area (some c) rest w small h =
      elim (Bool-cases (is_neg (validate_reg_area area.size c.regs))) [
        | inl e ↦ absurd (
            refused (validate_reg_area area.size c.regs) (rest (apply_reg_defaults k p t c w)) w e
              h)
        | inr e ↦
            let wf =
              (validate_reg_area-WellFormed area.size c.regs small).0
                (regs_result area.size c.regs e) in
            (
              (λ ctx e2.
                  subst (λ (x : SettingRegCtx). WellFormed area.size x.regs) (same_ctx e2) wf),
              (
                apply_reg_defaults k p t c w,
                passed (validate_reg_area area.size c.regs) (rest (apply_reg_defaults k p t c w)) w
                    e h,
              ),
            )
      ]

  init_areas-WellFormed :
      (areas : List SettingArea) (w : World K)
      → AllFit areas
      → is_neg (init_areas k p t areas w).0 ≡ false
      → AllWellFormed areas
  unfolding init_areas
  init_areas-WellFormed [] w fit h = tt
  init_areas-WellFormed (area ∷ areas) w fit h =
      let (here, more) =
        one_WellFormed area (setting_area_get_reg_ctx t.reg_read t.ctx_at area)
          (λ v. init_areas k p t areas v) w (omega (arith, fit.0)) h in
      (here, init_areas-WellFormed areas more.0 fit.1 more.1)

  -- If all areas end in the address space, the start either succeeds, marks the table as
  -- initialized, and then no two areas share an address and the registers of every register area
  -- are well formed; or it returns an error and leaves the mark as it was.
  pub settings_sys_init-WellFormed :
      (initialized : Bool) (w : World K)
      → AllFit t.areas
      → let (ret, mark, w1) = settings_sys_init k p t initialized w in
        ((ret ≡ pos 0) × (mark ≡ true) × Disjoint t.areas × AllWellFormed t.areas)
        ⊎ ((is_neg ret ≡ true) × (mark ≡ initialized))
  unfolding settings_sys_init
  settings_sys_init-WellFormed initialized w fit =
      elim (Bool-cases (is_neg (validate_area_addresses t.areas))) [
        | inl e ↦ inr (rw e (e, refl))
        | inr e ↦ elim (Bool-cases (is_neg (init_areas k p t t.areas w).0)) [
          | inl e2 ↦ inr (rw (e, e2) (e2, refl))
          | inr e2 ↦ inl (
              rw (e, e2)
                (
                  refl,
                  refl,
                  (validate_area_addresses-Disjoint t.areas fit).0 (addresses_result t.areas e),
                  init_areas-WellFormed t.areas w fit e2,
                ))
        ]
      ]
