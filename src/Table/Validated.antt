-- ===== src/Table/Validated.antt =====
-- The validator of an area's observable holds over the sets of its registers.
use zephyr_io.Prelude.{
  ◌≡◌, ◌≢◌, ◌<◌, ◌∙◌, refl, ap, sym, Option, none, some, List, Bool, true, false, ℤ, ℕ, pos, is_neg,
  is_none, length, take, take-all, not, if◌then◌else◌,
}
use mathlib.Core.Path.{subst}
use zephyr_io.World.{Ptr, World, update}
use zephyr_io.Kernel.{Kernel, Program, Lawful}
use zephyr_io.Core.Drain.{update_self, update_other}
use zephyr_io.Observable.Store.{IsReady}
use zephyr_io.Observable.Notified.{Spares}
use zephyr_io.Table.Value.{SettingReg, SettingValue, settings_reg_validate_range}
use zephyr_io.Table.Areas.{SettingArea, SettingRegCtx, setting_area_get_reg_ctx}
use zephyr_io.Table.Access.{Settings, write_value_at, copy_out, change_and_publish}
use zephyr_io.Table.Api.{validate_proposed, set_in, settings_reg_set}
use zephyr_io.Table.Published.{published-memory}
use zephyr_io.Table.Writes.{copy_out-IsReady, copy_out-memory, copy_out-limit}

-- A property of both results of a test, each under what the test says.
if_either :
    {A : Type 0} (Q : A → Type 0) (b : Bool) (x y : A)
    → (b ≡ true → Q x)
    → (b ≡ false → Q y)
    → Q (if b then x else y)
if_either Q true x y f g = f refl
if_either Q false x y f g = g refl

module _ {K : Type 0} {k : Kernel K} (L : Lawful k) (p : Program K) (area : SettingArea)
    (ctx : SettingRegCtx) (cell vld : Ptr) where
  -- The observable is free, holds as many bytes as the area, and has the validator.
  pub record Guards (w : World K) : Type 0 where
    pub ready : IsReady L p ctx.observable cell w
    pub limit : 0 < (L.view w.kernel).limit (w.observables ctx.observable).sem
    pub has : (w.observables ctx.observable).validator ≡ some vld
    pub size : length (w.memory cell) ≡ area.size

module _ {K : Type 0} {k : Kernel K} (L : Lawful k) (p : Program K) (t : Settings K)
    (area : SettingArea) (ctx : SettingRegCtx) (reg : SettingReg) (cell vld : Ptr)
    (verdict : List ℕ → ℤ)
    (validates : (ud : Option Ptr) (v : World K)
      → p.call_validator vld ctx.observable (some t.temp) ud v ≡ (verdict (v.memory t.temp), v))
    (apart : cell ≢ t.temp) (spares : Spares L p ctx.observable cell) where
  -- The world that the validator sees.
  abbrev proposal : SettingValue → World K → World K
  proposal value w =
      let w1 = copy_out k p t ctx.observable (take area.size) t.temp w in
      record w1 {
        memory =
            update w1.memory t.temp (write_value_at reg.type (w1.memory t.temp) reg.offset value);
      }

  abbrev Accepts : List ℕ → Type 0
  Accepts bs = is_neg (verdict bs) ≡ false

  proposed-eq :
      (value : SettingValue) (w : World K)
      → Guards L p area ctx cell vld w
      → validate_proposed k p t area ctx.observable reg value w
        ≡ (verdict ((proposal value w).memory t.temp), proposal value w)
  unfolding validate_proposed
  proposed-eq value w g =
      let v = proposal value w in
      let ud = (p.sink_at (w.observables ctx.observable).owner_sink).user_data in
      ap
        (λ (o : Option Ptr). if is_none o then (pos 0, w) else (elim o [
          | none ↦ (pos 0, v)
          | some f ↦ p.call_validator f ctx.observable (some t.temp) ud v
        ]))
        g.has
      ∙ validates ud v

  proposal-temp :
      (value : SettingValue) (w : World K)
      → Guards L p area ctx cell vld w
      → (proposal value w).memory t.temp ≡ write_value_at reg.type (w.memory cell) reg.offset value
  proposal-temp value w g =
      let m = (copy_out k p t ctx.observable (take area.size) t.temp w).memory in
      let whole : take area.size (w.memory cell) ≡ w.memory cell =
        rw (← g.size) (take-all (w.memory cell)) in
      let seen : m t.temp ≡ w.memory cell =
        ap (λ f. f t.temp)
          (copy_out-memory L p t ctx.observable cell (take area.size) t.temp w g.ready)
        ∙ update_self w.memory t.temp (take area.size (w.memory cell))
        ∙ whole in
      update_self m t.temp (write_value_at reg.type (m t.temp) reg.offset value)
      ∙ ap (λ bs. write_value_at reg.type bs reg.offset value) seen

  proposal-cell :
      (value : SettingValue) (w : World K)
      → Guards L p area ctx cell vld w
      → (proposal value w).memory cell ≡ w.memory cell
  proposal-cell value w g =
      let m = (copy_out k p t ctx.observable (take area.size) t.temp w).memory in
      update_other m t.temp cell (write_value_at reg.type (m t.temp) reg.offset value) apart
      ∙ ap (λ f. f cell)
          (copy_out-memory L p t ctx.observable cell (take area.size) t.temp w g.ready)
      ∙ update_other w.memory t.temp cell (take area.size (w.memory cell)) apart

  proposal-IsReady :
      (value : SettingValue) (w : World K)
      → Guards L p area ctx cell vld w
      → IsReady L p ctx.observable cell (proposal value w)
  proposal-IsReady value w g =
      let r1 =
        copy_out-IsReady L p t ctx.observable cell (take area.size) t.temp w g.ready g.limit in
      record { buffer = r1.buffer; idle = r1.idle; free = r1.free }

  proposal-limit :
      (value : SettingValue) (w : World K)
      → Guards L p area ctx cell vld w
      → 0
        < (L.view (proposal value w).kernel).limit
            ((proposal value w).observables ctx.observable).sem
  proposal-limit value w g =
      subst (λ n. 0 < n)
        (sym (copy_out-limit L p t ctx.observable cell (take area.size) t.temp w g.ready)) g.limit

  set_in-Accepts :
      (value : SettingValue) (w : World K)
      → Guards L p area ctx cell vld w
      → Accepts (w.memory cell)
      → Accepts ((set_in k p t true area reg value (some ctx) w).1.memory cell)
  unfolding set_in
  set_in-Accepts value w g h =
      let Q = λ (x : ℤ × World K). Accepts (x.1.memory cell) in
      let checked = validate_proposed k p t area ctx.observable reg value w in
      let eq = proposed-eq value w g in
      if_either Q (not reg.writable) _ _ (λ _. h)
        (λ _.
          if_either Q (not (settings_reg_validate_range reg value)) _ _ (λ _. h)
            (λ _.
              subst
                (λ (c : ℤ × World K). Q (
                  if is_neg c.0 then (c.0, c.1) else (
                    pos 0,
                    change_and_publish k p t ctx.observable
                        (λ v bs. write_value_at reg.type bs reg.offset value) c.1,
                  )))
                (sym eq)
                (if_either Q (is_neg (verdict ((proposal value w).memory t.temp))) _ _
                  (λ _. subst Accepts (sym (proposal-cell value w g)) h)
                  (λ good.
                    subst Accepts
                      (sym (
                        published-memory L p t ctx.observable cell spares
                          (λ v bs. write_value_at reg.type bs reg.offset value) (proposal value w)
                          (proposal-IsReady value w g) (proposal-limit value w g)
                        ∙ ap (λ bs. write_value_at reg.type bs reg.offset value)
                            (proposal-cell value w g)
                        ∙ sym (proposal-temp value w g)))
                      good))))

  -- The observable is free and holds a value that its validator accepts: after a settings_reg_set
  -- of any value, whatever it returns, it holds a value that the validator accepts, if every
  -- handler, ref and unref that runs while the observable notifies leaves its bytes, its struct
  -- and its semaphore as it found them, as a read of it does. The validator looks at the proposed
  -- bytes only and changes nothing.
  pub reg_set-Accepts :
      (value : SettingValue) (w : World K)
      → setting_area_get_reg_ctx t.reg_read t.ctx_at area ≡ some ctx
      → Guards L p area ctx cell vld w
      → is_neg (verdict (w.memory cell)) ≡ false
      → is_neg
          (verdict ((settings_reg_set k p t true (some area) (some reg) value w).1.memory cell))
        ≡ false
  unfolding settings_reg_set
  reg_set-Accepts value w is_reg_area g h =
      subst (λ c. Accepts ((set_in k p t true area reg value c w).1.memory cell)) (sym is_reg_area)
        (set_in-Accepts value w g h)
