-- ===== src/Table/SetGet.antt =====
-- A register that is set and then read.
use zephyr_io.Prelude.{
  ℕ, zero, suc, ◌≡◌, ◌≤◌, ◌<◌, ◌∙◌, refl, ap, sym, some, List, [], ◌∷◌, ◌++◌, true, ℤ, pos, neg,
  is_neg, erofs, erange, arith, length, take, drop, length-take, take-append_exact, not,
  if◌then◌else◌,
}
use mathlib.Core.Path.{subst}
use zephyr_io.World.{Ptr, World, copy_bytes}
use zephyr_io.Kernel.{forever, Kernel, Program, Lawful}
use zephyr_io.Core.Drain.{update_self}
use zephyr_io.Observable.{weave_observable_publish}
use zephyr_io.Observable.Guard.{lock-claimed, limit-claimed}
use zephyr_io.Observable.Store.{IsReady}
use zephyr_io.Observable.Notified.{Spares}
use zephyr_io.Observable.Settled.{IsClaimed, publish-IsSettled}
use zephyr_io.Table.Value.{
  SettingReg, SettingValue, RegisterType, register_type_size, read_value_from_mem,
  write_value_to_mem, settings_reg_validate_range,
}
use zephyr_io.Table.Areas.{SettingArea, SettingRegCtx, setting_area_get_reg_ctx}
use zephyr_io.Table.Access.{Settings, write_at, write_value_at, copy_out, change_and_publish}
use zephyr_io.Table.Api.{validate_proposed, set_in, get_in, settings_reg_get, settings_reg_set}
use zephyr_io.Table.Writes.{copy_out-memory, changed, change_and_publish-eq}

drop_prefix : (n : ℕ) (bs cs : List ℕ) → n ≤ length bs → drop n (take n bs ++ cs) ≡ cs
drop_prefix zero bs cs h = refl
drop_prefix (suc n) [] cs h = absurd (omega arith)
drop_prefix (suc n) (b ∷ bs) cs h = drop_prefix n bs cs (omega arith)

-- Bytes read from where they were written.
pub read-write_at :
    (n offset : ℕ) (bs src out : List ℕ)
    → offset ≤ length bs
    → n ≤ length src
    → take n (copy_bytes out (drop offset (write_at bs offset src n)) n) ≡ take n src
read-write_at n offset bs src out h1 h2 =
    let l : n ≡ length (take n src) = omega (arith, length-take n src) in
    let inner = take n src ++ drop n (drop offset bs) in
    let e1 : take n (drop offset (take offset bs ++ inner)) ≡ take n src =
      ap (take n) (drop_prefix offset bs inner h1)
      ∙ take-append_exact n (take n src) (drop n (drop offset bs)) l in
    ap (λ x. take n (x ++ drop n out)) e1 ∙ take-append_exact n (take n src) (drop n out) l

-- A typed value read from where it was written.
pub read-write :
    (type : RegisterType) (bs : List ℕ) (offset : ℕ) (val out : SettingValue)
    → offset ≤ length bs
    → register_type_size type ≤ length val
    → take
        (register_type_size type)
        (read_value_from_mem type (drop offset (write_value_at type bs offset val)) out)
      ≡ take (register_type_size type) val
unfolding read_value_from_mem write_value_to_mem
read-write type bs offset val out h1 h2 =
    read-write_at (register_type_size type) offset bs val out h1 h2

module _ {K : Type 0} {k : Kernel K} (L : Lawful k) (p : Program K) (t : Settings K)
    (area : SettingArea) (ctx : SettingRegCtx) (reg : SettingReg) (cell : Ptr)
    (is_reg_area : setting_area_get_reg_ctx t.reg_read t.ctx_at area ≡ some ctx)
    (spares : Spares L p ctx.observable cell) where
  -- The world that a set publishes, from the world w1 that the validation leaves.
  abbrev set_world : SettingValue → World K → World K
  set_world value w1 =
      changed L p t ctx.observable cell (λ v bs. write_value_at reg.type bs reg.offset value) w1

  set_in_eq :
      (value : SettingValue) (w w1 : World K)
      → reg.writable ≡ true
      → settings_reg_validate_range reg value ≡ true
      → validate_proposed k p t area ctx.observable reg value w ≡ (pos 0, w1)
      → IsReady L p ctx.observable cell w1
      → set_in k p t true area reg value (some ctx) w
        ≡ (pos 0, (weave_observable_publish k p (some ctx.observable) (set_world value w1)).1)
  unfolding set_in
  set_in_eq value w w1 h1 h2 h3 r =
      ap
        (λ b.
          if not b
          then (neg erofs, w)
          else if not (settings_reg_validate_range reg value)
          then (neg erange, w)
          else finished (validate_proposed k p t area ctx.observable reg value w))
        h1
      ∙ ap
          (λ b.
            if not b
            then (neg erange, w)
            else finished (validate_proposed k p t area ctx.observable reg value w))
          h2
      ∙ ap finished h3
      ∙ ap (λ (v : World K). (pos 0, v))
          (change_and_publish-eq L p t ctx.observable cell
            (λ v bs. write_value_at reg.type bs reg.offset value) w1 r)
    where
      finished : ℤ × World K → ℤ × World K
      finished x = if is_neg x.0 then (x.0, x.1) else (
        pos 0,
        change_and_publish k p t ctx.observable
            (λ v bs. write_value_at reg.type bs reg.offset value) x.1,
      )

  set_eq :
      (value : SettingValue) (w w1 : World K)
      → reg.writable ≡ true
      → settings_reg_validate_range reg value ≡ true
      → validate_proposed k p t area ctx.observable reg value w ≡ (pos 0, w1)
      → IsReady L p ctx.observable cell w1
      → settings_reg_set k p t true (some area) (some reg) value w
        ≡ (pos 0, (weave_observable_publish k p (some ctx.observable) (set_world value w1)).1)
  unfolding settings_reg_set
  set_eq value w w1 h1 h2 h3 r =
      ap (λ c. set_in k p t true area reg value c w) is_reg_area ∙ set_in_eq value w w1 h1 h2 h3 r

  get_in_eq :
      (out : Ptr) (v : World K)
      → reg.readable ≡ true
      → get_in k p t true reg out (some ctx) v ≡ (
        pos 0,
        copy_out k p t ctx.observable
            (λ bs. read_value_from_mem reg.type (drop reg.offset bs) (v.memory out))
            out
            v,
      )
  unfolding get_in
  get_in_eq out v h =
      ap
        (λ b. if not b then (neg erofs, v) else (
          pos 0,
          copy_out k p t ctx.observable
              (λ bs. read_value_from_mem reg.type (drop reg.offset bs) (v.memory out)) out v,
        ))
        h

  get_eq :
      (out : Ptr) (v : World K)
      → reg.readable ≡ true
      → settings_reg_get k p t true (some area) (some reg) (some out) v ≡ (
        pos 0,
        copy_out k p t ctx.observable
            (λ bs. read_value_from_mem reg.type (drop reg.offset bs) (v.memory out))
            out
            v,
      )
  unfolding settings_reg_get
  get_eq out v h = ap (λ c. get_in k p t true reg out c v) is_reg_area ∙ get_in_eq out v h

  set_world-IsClaimed :
      (value : SettingValue) (w1 : World K)
      → IsReady L p ctx.observable cell w1
      → 0 < (L.view w1.kernel).limit (w1.observables ctx.observable).sem
      → IsClaimed L p ctx.observable cell (set_world value w1)
  set_world-IsClaimed value w1 r limit = record {
    buffer = r.buffer;
    idle = r.idle;
    taken = lock-claimed L p ctx.observable forever w1 0 r.free;
    limit = subst (λ n. 0 < n) (sym (limit-claimed L p ctx.observable forever w1 0 r.free)) limit;
  }

  -- Round trip: a value of the register's range, with the bytes of its type, is set on a register
  -- of a register area that can be written and read and that starts inside the bytes of the
  -- observable; the validation accepts the value and leaves the observable free. The set returns
  -- 0, and if every handler, ref and unref that runs while the observable notifies leaves its
  -- bytes, its struct and its semaphore as it found them, as a read of it does, a get after it
  -- returns 0 and the value.
  pub reg_get-reg_set :
      (value : SettingValue) (out : Ptr) (w w1 : World K)
      → reg.writable ≡ true
      → reg.readable ≡ true
      → settings_reg_validate_range reg value ≡ true
      → register_type_size reg.type ≤ length value
      → validate_proposed k p t area ctx.observable reg value w ≡ (pos 0, w1)
      → IsReady L p ctx.observable cell w1
      → 0 < (L.view w1.kernel).limit (w1.observables ctx.observable).sem
      → reg.offset ≤ length (w1.memory cell)
      → let (ret, v) = settings_reg_set k p t true (some area) (some reg) value w in
        let (ret2, v2) = settings_reg_get k p t true (some area) (some reg) (some out) v in
        (ret ≡ pos 0)
        × (ret2 ≡ pos 0)
        × (take (register_type_size reg.type) (v2.memory out)
            ≡ take (register_type_size reg.type) value)
  reg_get-reg_set value out w w1 h1 h2 h3 h4 h5 r limit h6 =
      let claimed_world = set_world value w1 in
      let v = (weave_observable_publish k p (some ctx.observable) claimed_world).1 in
      let s =
        publish-IsSettled L p ctx.observable cell claimed_world
          (set_world-IsClaimed value w1 r limit) spares in
      let bytes =
        s.same_cell
        ∙ update_self w1.memory cell (write_value_at reg.type (w1.memory cell) reg.offset value) in
      let n = register_type_size reg.type in
      let read =
        λ (bs : List ℕ). read_value_from_mem reg.type (drop reg.offset bs) (v.memory out) in
      rw (set_eq value w w1 h1 h3 h5 r, get_eq out v h2)
        (
          refl,
          refl,
          ap (λ (m : Ptr → List ℕ). take n (m out))
                (copy_out-memory L p t ctx.observable cell read out v s.ready)
              ∙ ap (take n) (update_self v.memory out (read (v.memory cell)))
              ∙ ap (λ bs. take n (read bs)) bytes
              ∙ read-write reg.type (w1.memory cell) reg.offset value (v.memory out) h6 h4,
        )
