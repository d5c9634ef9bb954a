-- ===== src/Table/Writes.antt =====
-- A write by address into a register area: which bytes reach the observable, and when none do.
use zephyr_io.Prelude.{
  ℕ, ◌+◌, ◌≡◌, ◌≢◌, ◌≤◌, ◌<◌, ◌∙◌, refl, ap, sym, Option, some, List, pos, neg, erofs, erange,
  arith, length, take, take-all,
}
use mathlib.Core.Path.{subst}
use zephyr_io.World.{Ptr, World, update}
use zephyr_io.Kernel.{forever, Kernel, Program, Lawful}
use zephyr_io.Core.Drain.{update_self, update_other}
use zephyr_io.Observable.{weave_observable_finish, weave_observable_publish}
use zephyr_io.Observable.Guard.{
  claimed, claim-free, lock-claimed, limit-claimed, lock-finish, limit-finish,
}
use zephyr_io.Observable.Store.{IsReady}
use zephyr_io.Table.Value.{SettingReg}
use zephyr_io.Table.Areas.{SettingArea}
use zephyr_io.Table.Access.{
  Settings, check_reg_write_access, validate_reg_write, clip, write_at, bytes_at, content, copy_out,
  write_through, change_and_publish, propose, setting_reg_write,
}

pub clip-inside :
    (size offset len : ℕ) → size < 65536 → offset + len ≤ size → clip size offset len ≡ len
unfolding clip
clip-inside size offset len h1 h2 = ground arith

module _ {K : Type 0} {k : Kernel K} (L : Lawful k) (p : Program K) (t : Settings K)
    (obs cell : Ptr) where
  pub copy_out-IsReady :
      (change : List ℕ → List ℕ) (dst : Ptr) (w : World K)
      → IsReady L p obs cell w
      → 0 < (L.view w.kernel).limit (w.observables obs).sem
      → IsReady L p obs cell (copy_out k p t obs change dst w)
  unfolding copy_out weave_observable_finish
  copy_out-IsReady change dst w r limit =
      let v = record (claimed L p obs forever w) {
        memory = update w.memory dst (change (content k p t obs (claimed L p obs forever w)));
      } in
      record {
        buffer = r.buffer;
        idle = r.idle;
        free =
            lock-finish L p obs v (lock-claimed L p obs forever w 0 r.free)
              (subst (λ n. 0 < n) (sym (limit-claimed L p obs forever w 0 r.free)) limit);
      }

  pub copy_out-limit :
      (change : List ℕ → List ℕ) (dst : Ptr) (w : World K)
      → IsReady L p obs cell w
      → let v = copy_out k p t obs change dst w in
        (L.view v.kernel).limit (v.observables obs).sem
        ≡ (L.view w.kernel).limit (w.observables obs).sem
  unfolding copy_out weave_observable_finish
  copy_out-limit change dst w r =
      let v = record (claimed L p obs forever w) {
        memory = update w.memory dst (change (content k p t obs (claimed L p obs forever w)));
      } in
      limit-finish L p obs v (w.observables obs).sem ∙ limit-claimed L p obs forever w 0 r.free

  pub copy_out-memory :
      (change : List ℕ → List ℕ) (dst : Ptr) (w : World K)
      → IsReady L p obs cell w
      → (copy_out k p t obs change dst w).memory ≡ update w.memory dst (change (w.memory cell))
  unfolding copy_out
  copy_out-memory change dst w r =
      ap (λ o. update w.memory dst (change (bytes_at w.memory o))) r.buffer

  -- The world in which `change_and_publish` publishes.
  abbrev pub changed : (World K → List ℕ → List ℕ) → World K → World K
  changed change w =
      let w1 = claimed L p obs forever w in
      record w1 { memory = update w1.memory cell (change w1 (w1.memory cell)) }

  pub change_and_publish-eq :
      (change : World K → List ℕ → List ℕ) (w : World K)
      → IsReady L p obs cell w
      → change_and_publish k p t obs change w
        ≡ (weave_observable_publish k p (some obs) (changed change w)).1
  unfolding change_and_publish write_through
  change_and_publish-eq change w r =
      ap
        (λ (c : Option Ptr × World K).
          (weave_observable_publish k p (some obs) (write_through k p t c.0 (change c.1) c.1)).1)
        (claim-free L p obs forever w 0 r.free)
      ∙ ap
          (λ c.
            (weave_observable_publish k p (some obs) (
              write_through k p t c (change (claimed L p obs forever w))
                (claimed L p obs forever w))).1)
          r.buffer

-- Distinct buffers: the observable's, the array `temp` and the caller's.
pub record IsSeparate {K : Type 0} (t : Settings K) (cell buf : Ptr) : Type 0 where
  pub cell_temp : cell ≢ t.temp
  pub buf_temp : buf ≢ t.temp
  pub buf_cell : buf ≢ cell

module _ {K : Type 0} {k : Kernel K} (L : Lawful k) (p : Program K) (t : Settings K)
    (area : SettingArea) (cell buf : Ptr) (offset n : ℕ) where
  abbrev obs_of : Ptr
  obs_of = (t.ctx_at area.ctx).observable

  abbrev regs_of : List SettingReg
  regs_of = (t.ctx_at area.ctx).regs

  -- The struct with the written bytes.
  abbrev pub merged : World K → List ℕ
  merged w = write_at (w.memory cell) offset (w.memory buf) n

  pub proposed-temp :
      (w : World K)
      → IsReady L p obs_of cell w
      → IsSeparate t cell buf
      → length (w.memory cell) ≡ area.size
      → (propose k p t area offset buf n w).memory t.temp ≡ merged w
  unfolding propose
  proposed-temp w r s len =
      let first = take area.size (bytes_at w.memory (w.observables obs_of).value) in
      let m = update w.memory t.temp first in
      let whole : take area.size (w.memory cell) ≡ w.memory cell =
        rw (← len) (take-all (w.memory cell)) in
      update_self m t.temp (write_at (m t.temp) offset (m buf) n)
      ∙ ap (λ x. write_at x offset (m buf) n)
          (update_self w.memory t.temp first
            ∙ ap (λ o. take area.size (bytes_at w.memory o)) r.buffer
            ∙ whole)
      ∙ ap (λ x. write_at (w.memory cell) offset x n)
          (update_other w.memory t.temp buf first s.buf_temp)

  pub proposed-cell :
      (w : World K)
      → IsReady L p obs_of cell w
      → IsSeparate t cell buf
      → (propose k p t area offset buf n w).memory cell ≡ w.memory cell
  unfolding propose
  proposed-cell w r s =
      let first = take area.size (bytes_at w.memory (w.observables obs_of).value) in
      let m = update w.memory t.temp first in
      update_other m t.temp cell (write_at (m t.temp) offset (m buf) n) s.cell_temp
      ∙ update_other w.memory t.temp cell first s.cell_temp

  pub proposed-buf :
      (w : World K)
      → IsReady L p obs_of cell w
      → IsSeparate t cell buf
      → (propose k p t area offset buf n w).memory buf ≡ w.memory buf
  unfolding propose
  proposed-buf w r s =
      let first = take area.size (bytes_at w.memory (w.observables obs_of).value) in
      let m = update w.memory t.temp first in
      update_other m t.temp buf (write_at (m t.temp) offset (m buf) n) s.buf_temp
      ∙ update_other w.memory t.temp buf first s.buf_temp

  pub proposed-IsReady :
      (w : World K)
      → IsReady L p obs_of cell w
      → 0 < (L.view w.kernel).limit (w.observables obs_of).sem
      → IsReady L p obs_of cell (propose k p t area offset buf n w)
  unfolding propose
  proposed-IsReady w r limit =
      let r1 = copy_out-IsReady L p t obs_of cell (take area.size) t.temp w r limit in
      record { buffer = r1.buffer; idle = r1.idle; free = r1.free }

  pub proposed-limit :
      (w : World K)
      → IsReady L p obs_of cell w
      → (L.view (propose k p t area offset buf n w).kernel).limit
          ((propose k p t area offset buf n w).observables obs_of).sem
        ≡ (L.view w.kernel).limit (w.observables obs_of).sem
  unfolding propose
  proposed-limit w r = copy_out-limit L p t obs_of cell (take area.size) t.temp w r

  -- A write by address that touches a read-only register returns -EROFS and changes nothing.
  pub write-refused :
      (w : World K)
      → area.size < 65536
      → offset + n ≤ area.size
      → check_reg_write_access regs_of offset n ≡ neg erofs
      → setting_reg_write k p t area offset buf n w ≡ (neg erofs, w)
  unfolding setting_reg_write
  write-refused w small inside e = rw (clip-inside area.size offset n small inside, e) refl

  -- A free observable of the area's size and buffers that are apart: a write inside the area that
  -- touches no read-only register, but would bring a register that it touches out of its range,
  -- returns -ERANGE, and the observable's bytes are as before.
  pub write-out_of_range :
      (w : World K)
      → IsReady L p obs_of cell w
      → IsSeparate t cell buf
      → length (w.memory cell) ≡ area.size
      → area.size < 65536
      → offset + n ≤ area.size
      → check_reg_write_access regs_of offset n ≡ pos 0
      → validate_reg_write regs_of offset n (merged w) ≡ neg erange
      → let (ret, w1) = setting_reg_write k p t area offset buf n w in
        (ret ≡ neg erange) × (w1.memory cell ≡ w.memory cell)
  unfolding setting_reg_write
  write-out_of_range w r s len small inside access bad =
      let bad' = ap (validate_reg_write regs_of offset n) (proposed-temp w r s len) ∙ bad in
      rw (clip-inside area.size offset n small inside, access, bad') (refl, proposed-cell w r s)
