-- ===== src/Table/Defaults.antt =====
-- A reset to defaults: every register of the area then reads its default.
use zephyr_io.Prelude.{
  ℕ, ◌+◌, ◌≡◌, ◌≤◌, ◌<◌, ◌∙◌, inl, inr, refl, ap, sym, some, List, [], ◌∷◌, ◌++◌, true, pos, arith,
  length, take, drop, length-append, length-take, length-drop,
}
use mathlib.Core.Path.{subst}
use zephyr_io.World.{Ptr, World}
use zephyr_io.Kernel.{Kernel, Program, Lawful}
use zephyr_io.Observable.Store.{IsReady}
use zephyr_io.Observable.Notified.{Spares}
use zephyr_io.Table.Value.{SettingReg, register_type_size, write_value_to_mem}
use zephyr_io.Table.Areas.{SettingArea, SettingRegCtx, setting_area_get_reg_ctx}
use zephyr_io.Table.Access.{Settings, write_value_at, write_defaults}
use zephyr_io.Table.Api.{settings_reset_defaults}
use zephyr_io.Table.Layout.{Apart}
use zephyr_io.Table.Registers.{RegApartFromAll, WellFormed}
use zephyr_io.Table.Guarded.{value_in, value_in-Apart}
use zephyr_io.Table.SetGet.{read-write}
use zephyr_io.Table.Published.{published-IsReady, published-memory}

-- Every register holds its default.
abbrev pub AllDefault : List SettingReg → List ℕ → Type 0
AllDefault [] bs = Unit
AllDefault (r ∷ regs) bs =
    (take (register_type_size r.type) (value_in r bs) ≡ take (register_type_size r.type) r.dflt)
    × AllDefault regs bs

-- The defaults have the bytes of their types, as the bytes of a union have.
abbrev pub AllWhole : List SettingReg → Type 0
AllWhole [] = Unit
AllWhole (r ∷ regs) = (register_type_size r.type ≤ length r.dflt) × AllWhole regs

abbrev with_default : SettingReg → List ℕ → List ℕ
with_default r bs = write_value_at r.type bs r.offset r.dflt

length-with_default :
    (r : SettingReg) (bs : List ℕ)
    → register_type_size r.type ≤ length r.dflt
    → r.offset + register_type_size r.type ≤ length bs
    → length (with_default r bs) ≡ length bs
unfolding write_value_to_mem
length-with_default r bs h1 h2 =
    let n = register_type_size r.type in
    let rest = drop n (drop r.offset bs) in
    omega (
      arith,
      length-append (take r.offset bs) (take n r.dflt ++ rest),
      length-append (take n r.dflt) rest,
      length-take r.offset bs,
      length-take n r.dflt,
      length-drop n (drop r.offset bs),
      length-drop r.offset bs,
    )

-- Defaults of registers that are apart from a register leave it alone.
kept :
    (size : ℕ) (r : SettingReg) (regs : List SettingReg) (bs : List ℕ)
    → RegApartFromAll r regs
    → WellFormed size regs
    → AllWhole regs
    → length bs ≡ size
    → value_in r (write_defaults regs bs) ≡ value_in r bs
unfolding write_defaults
kept size r [] bs ap_ wf whole len = refl
kept size r (q ∷ regs) bs (apart, aparts) (fits, own, rest) (w, whole) len =
    let n = register_type_size q.type in
    let inside : q.offset + n ≤ length bs = omega (arith, fits.in_struct) in
    kept size r regs (with_default q bs) aparts rest whole (length-with_default q bs w inside ∙ len)
    ∙ unfold write_value_to_mem in
      value_in-Apart r q.offset n bs q.dflt (flip apart.by_offset) w inside
  where
    flip : {a b c d : ℕ} → Apart a b c d → Apart c d a b
    flip (inl h) = inr h
    flip (inr h) = inl h

write_defaults-AllDefault :
    (size : ℕ) (regs : List SettingReg) (bs : List ℕ)
    → WellFormed size regs
    → AllWhole regs
    → length bs ≡ size
    → AllDefault regs (write_defaults regs bs)
unfolding write_defaults
write_defaults-AllDefault size [] bs wf whole len = tt
write_defaults-AllDefault size (r ∷ regs) bs (fits, own, rest) (w, whole) len =
    let n = register_type_size r.type in
    let inside : r.offset + n ≤ length bs = omega (arith, fits.in_struct) in
    let len1 = length-with_default r bs w inside ∙ len in
    (
      ap (take n) (kept size r regs (with_default r bs) own rest whole len1)
          ∙ read-write r.type bs r.offset r.dflt [] (omega arith) w,
      write_defaults-AllDefault size regs (with_default r bs) rest whole len1,
    )

module _ {K : Type 0} {k : Kernel K} (L : Lawful k) (p : Program K) (t : Settings K)
    (area : SettingArea) (ctx : SettingRegCtx) (cell : Ptr)
    (is_reg_area : setting_area_get_reg_ctx t.reg_read t.ctx_at area ≡ some ctx)
    (spares : Spares L p ctx.observable cell) where
  -- A reset of a register area whose registers are well formed, with defaults that have the bytes
  -- of their types, and whose observable is free and holds as many bytes as the area returns 0. If
  -- every handler, ref and unref that runs while the observable notifies leaves its bytes, its
  -- struct and its semaphore as it found them, as a read of it does, it is free again and every
  -- register holds its default.
  pub reset_defaults-AllDefault :
      (w : World K)
      → IsReady L p ctx.observable cell w
      → 0 < (L.view w.kernel).limit (w.observables ctx.observable).sem
      → WellFormed area.size ctx.regs
      → AllWhole ctx.regs
      → length (w.memory cell) ≡ area.size
      → let (ret, v) = settings_reset_defaults k p t true (some area) w in
        (ret ≡ pos 0) × IsReady L p ctx.observable cell v × AllDefault ctx.regs (v.memory cell)
  unfolding settings_reset_defaults
  reset_defaults-AllDefault w r limit wf whole len =
      let change = λ (v : World K) (bs : List ℕ). write_defaults ctx.regs bs in
      rw (is_reg_area, settings_reset_defaults)
        (
          refl,
          published-IsReady L p t ctx.observable cell spares change w r limit,
          subst (AllDefault ctx.regs)
              (sym (published-memory L p t ctx.observable cell spares change w r limit))
              (write_defaults-AllDefault area.size ctx.regs (w.memory cell) wf whole len),
        )
