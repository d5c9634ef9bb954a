-- ===== src/Table/Access.antt =====
-- Reads and writes of areas and registers through their observables.
use zephyr_io.Prelude.{
  ℕ, ◌+◌, ◌-◌, ◌%◌, ◌^◌, Option, none, some, List, [], ◌∷◌, ◌++◌, Bool, ℤ, pos, neg, negsuc, is_neg,
  erange, erofs, ltb, ◌&&◌, not, take, drop, if◌then◌else◌,
}
use zephyr_io.World.{Ptr, World, update, copy_bytes}
use zephyr_io.Kernel.{forever, Kernel, Program}
use zephyr_io.Observable.{weave_observable_claim, weave_observable_publish}
use zephyr_io.Table.Value.{
  RegisterType, SettingValue, SettingReg, register_type_size, settings_reg_validate_range,
  read_value_from_mem, write_value_to_mem,
}
use zephyr_io.Table.Areas.{SettingArea, SettingRegCtx, to_u16, ranges_overlap}

-- The registers that bytes `offset` to `offset + len` of the area touch.
unfoldable pub touches : ℕ → ℕ → SettingReg → Bool
unfolding ranges_overlap register_type_size
touches offset len r =
    ranges_overlap offset (to_u16 (offset + len)) r.addr
      (to_u16 (r.addr + register_type_size r.type))

unfoldable pub check_reg_write_access : List SettingReg → ℕ → ℕ → ℤ
unfolding touches
check_reg_write_access [] offset len = pos 0
check_reg_write_access (r ∷ regs) offset len =
    let rest = check_reg_write_access regs offset len in
    if touches offset len r && not r.writable then neg erofs else rest

unfoldable pub validate_reg_write : List SettingReg → ℕ → ℕ → List ℕ → ℤ
unfolding touches read_value_from_mem settings_reg_validate_range
validate_reg_write [] offset len proposed_data = pos 0
validate_reg_write (r ∷ regs) offset len proposed_data =
    let rest = validate_reg_write regs offset len proposed_data in
    let val = read_value_from_mem r.type (drop r.offset proposed_data) [] in
    if touches offset len r && not (settings_reg_validate_range r val) then neg erange else rest

-- `len` cut at the end of the area; size_t has 32 bits.
unfoldable pub clip : ℕ → ℕ → ℕ → ℕ
clip size offset len =
    if ltb size ((offset + len) % 2 ^ 32) then (2 ^ 32 + size - offset) % 2 ^ 32 else len

-- `(int)len`
abbrev pub to_int : ℕ → ℤ
to_int n = if ltb n (2 ^ 31) then pos n else negsuc (2 ^ 32 - 1 - n)

-- Bytes are written at an offset of a buffer: `memcpy(dst + offset, src, n)`.
abbrev pub write_at : List ℕ → ℕ → List ℕ → ℕ → List ℕ
write_at dst offset src n = take offset dst ++ copy_bytes (drop offset dst) src n

-- A typed value is written at an offset of a buffer.
abbrev pub write_value_at : RegisterType → List ℕ → ℕ → SettingValue → List ℕ
write_value_at type dst offset val =
    take offset dst ++ write_value_to_mem type (drop offset dst) val

unfoldable pub write_defaults : List SettingReg → List ℕ → List ℕ
unfolding write_value_to_mem
write_defaults [] data_ = data_
write_defaults (reg ∷ regs) data_ =
    write_defaults regs (write_value_at reg.type data_ reg.offset reg.dflt)

-- The bytes behind a pointer; none behind NULL.
abbrev pub bytes_at : (Ptr → List ℕ) → Option Ptr → List ℕ
bytes_at memory none = []
bytes_at memory (some cell) = memory cell

-- The areas of the iterable section, the contexts behind their `ctx` pointers, the addresses of
-- setting_reg_read, setting_reg_write and of the array `temp` on the stack, and the callbacks of
-- other areas.
pub record Settings (K : Type 0) : Type 0 where
  pub areas : List SettingArea
  pub ctx_at : Ptr → SettingRegCtx
  pub reg_read : Ptr
  pub reg_write : Ptr
  pub temp : Ptr
  pub call_read : Ptr → SettingArea → ℕ → Ptr → ℕ → World K → ℤ × World K
  pub call_write : Ptr → SettingArea → ℕ → Ptr → ℕ → World K → ℤ × World K

module _ {K : Type 0} (k : Kernel K) (p : Program K) (t : Settings K) where
  -- What an observable's buffer holds.
  abbrev pub content : Ptr → World K → List ℕ
  content obs w = bytes_at w.memory (w.observables obs).value

  abbrev pub with_sem_take : Ptr → World K → World K
  with_sem_take obs w = record w {
    kernel = (k.sem_take (w.observables obs).sem forever w.kernel).1;
  }

  abbrev pub with_sem_give : Ptr → World K → World K
  with_sem_give obs w = record w { kernel = k.sem_give (w.observables obs).sem w.kernel }

  -- Bytes of the value are copied to a buffer under the semaphore.
  unfoldable pub copy_out : Ptr → (List ℕ → List ℕ) → Ptr → World K → World K
  copy_out obs change dst w =
      let w1 = with_sem_take obs w in
      let w2 = record w1 { memory = update w1.memory dst (change (content obs w1)) } in
      with_sem_give obs w2

  -- A write through NULL, which C leaves undefined, changes nothing here.
  unfoldable pub write_through : Option Ptr → (List ℕ → List ℕ) → World K → World K
  write_through none change w = w
  write_through (some cell) change w = record w {
    memory = update w.memory cell (change (w.memory cell));
  }

  -- Claim, change the buffer, publish.
  unfoldable pub change_and_publish : Ptr → (World K → List ℕ → List ℕ) → World K → World K
  unfolding write_through
  change_and_publish obs change w =
      let (ptr, w1) = weave_observable_claim k (some obs) forever w in
      (weave_observable_publish k p (some obs) (write_through ptr (change w1) w1)).1

  unfoldable pub run_validator : Ptr → World K → ℤ × World K
  run_validator obs w = elim (w.observables obs).validator [
    | none ↦ (pos 0, w)
    | some v ↦
        p.call_validator v obs (some t.temp) (p.sink_at (w.observables obs).owner_sink).user_data w
  ]

  unfoldable pub apply_reg_defaults : SettingRegCtx → World K → World K
  unfolding change_and_publish write_defaults
  apply_reg_defaults ctx w =
      change_and_publish ctx.observable (λ w1 bs. write_defaults ctx.regs bs) w

  unfoldable pub setting_reg_read : SettingArea → ℕ → Ptr → ℕ → World K → ℤ × World K
  unfolding clip copy_out
  setting_reg_read area offset buf len w =
      let n = clip area.size offset len in
      (
        to_int n,
        copy_out (t.ctx_at area.ctx).observable (λ bs. copy_bytes (w.memory buf) (drop offset bs) n)
            buf w,
      )

  -- `temp`: the value with the proposed bytes.
  unfoldable pub propose : SettingArea → ℕ → Ptr → ℕ → World K → World K
  unfolding copy_out
  propose area offset buf n w =
      let w1 = copy_out (t.ctx_at area.ctx).observable (take area.size) t.temp w in
      record w1 {
        memory = update w1.memory t.temp (write_at (w1.memory t.temp) offset (w1.memory buf) n);
      }

  unfoldable pub setting_reg_write : SettingArea → ℕ → Ptr → ℕ → World K → ℤ × World K
  setting_reg_write area offset buf len w =
      let ctx = t.ctx_at area.ctx in
      let n = clip area.size offset len in
      let access = check_reg_write_access ctx.regs offset n in
      let w1 = propose area offset buf n w in
      let range = validate_reg_write ctx.regs offset n (w1.memory t.temp) in
      let (ret, w2) = run_validator ctx.observable w1 in
      let w3 = change_and_publish ctx.observable (λ v bs. write_at bs offset (v.memory buf) n) w2 in
      if is_neg access
      then (access, w)
      else if is_neg range
      then (range, w1)
      else if is_neg ret
      then (ret, w2)
      else (to_int n, w3)
