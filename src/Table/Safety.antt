-- ===== src/Table/Safety.antt =====
-- A write by address keeps the invariant of a register area.
use zephyr_io.Prelude.{
  ℕ, ◌+◌, ◌≡◌, ◌≤◌, ◌<◌, ◌∙◌, ◌⊎◌, inl, inr, refl, ap, sym, List, [], ◌∷◌, true, false, ◌&&◌, not,
  ℤ, pos, is_neg, length, arith, Bool-cases,
}
use mathlib.Core.Path.{subst}
use zephyr_io.World.{Ptr, World}
use zephyr_io.Kernel.{Kernel, Program, Lawful}
use zephyr_io.Observable.Store.{IsReady}
use zephyr_io.Observable.Notified.{Spares}
use zephyr_io.Table.Value.{SettingReg, settings_reg_validate_range}
use zephyr_io.Table.Areas.{SettingArea}
use zephyr_io.Table.Access.{
  Settings, touches, to_int, write_at, check_reg_write_access, validate_reg_write, run_validator,
  propose, change_and_publish, setting_reg_write,
}
use zephyr_io.Table.Published.{published-memory}
use zephyr_io.Table.Guarded.{
  AllPlaced, AllInRange, KeepsReadOnly, value_in, write-AllInRange, write-KeepsReadOnly,
}
use zephyr_io.Table.Writes.{
  IsSeparate, merged, clip-inside, proposed-temp, proposed-cell, proposed-buf, proposed-IsReady,
  proposed-limit,
}

KeepsReadOnly-refl : (regs : List SettingReg) (bs : List ℕ) → KeepsReadOnly regs bs bs
KeepsReadOnly-refl [] bs = tt
KeepsReadOnly-refl (r ∷ regs) bs = ((λ h. refl), KeepsReadOnly-refl regs bs)

-- The checks return 0 or an error.
access_zero :
    (regs : List SettingReg) (off n : ℕ)
    → is_neg (check_reg_write_access regs off n) ≡ false
    → check_reg_write_access regs off n ≡ pos 0
unfolding check_reg_write_access
access_zero [] off n h = refl
access_zero (r ∷ regs) off n h = elim (Bool-cases (touches off n r && not r.writable)) [
  | inl e ↦ (let h2 = (rw e at h) in absurd (ground arith))
  | inr e ↦ rw e (access_zero regs off n (rw e at h))
]

range_zero :
    (regs : List SettingReg) (off n : ℕ) (bs : List ℕ)
    → is_neg (validate_reg_write regs off n bs) ≡ false
    → validate_reg_write regs off n bs ≡ pos 0
unfolding validate_reg_write
range_zero [] off n bs h = refl
range_zero (r ∷ regs) off n bs h =
    elim (Bool-cases (touches off n r && not (settings_reg_validate_range r (value_in r bs)))) [
      | inl e ↦ (let h2 = (rw e at h) in absurd (ground arith))
      | inr e ↦ rw e (range_zero regs off n bs (rw e at h))
    ]

module _ {K : Type 0} {k : Kernel K} (L : Lawful k) (p : Program K) (t : Settings K)
    (area : SettingArea) (cell buf : Ptr) (offset n : ℕ) where
  -- An observable of a register area that can be written by address: free, of the area's size, apart
  -- from the other buffers, with registers at their addresses, each holding a value of its range.
  pub record IsSound (w : World K) : Type 0 where
    pub ready : IsReady L p (t.ctx_at area.ctx).observable cell w
    pub limit : 0 < (L.view w.kernel).limit (w.observables (t.ctx_at area.ctx).observable).sem
    pub separate : IsSeparate t cell buf
    pub sized : length (w.memory cell) ≡ area.size
    pub small : area.size < 65536
    pub placed : AllPlaced (t.ctx_at area.ctx).regs
    pub in_range : AllInRange (t.ctx_at area.ctx).regs (w.memory cell)

  abbrev regs : List SettingReg
  regs = (t.ctx_at area.ctx).regs

  abbrev obs : Ptr
  obs = (t.ctx_at area.ctx).observable

  -- What a write leaves: its error and the old bytes, or its length and the written bytes merged in.
  record Outcome (w : World K) (r : ℤ × World K) : Type 0 where
    in_range : AllInRange regs (r.1.memory cell)
    read_only : KeepsReadOnly regs (w.memory cell) (r.1.memory cell)
    bytes :
        ((is_neg r.0 ≡ true) × (r.1.memory cell ≡ w.memory cell))
        ⊎ ((r.0 ≡ pos n) × (r.1.memory cell ≡ merged L p t area cell buf offset n w))

  refused-Outcome :
      (w : World K) (r : ℤ × World K)
      → IsSound w
      → is_neg r.0 ≡ true
      → r.1.memory cell ≡ w.memory cell
      → Outcome w r
  refused-Outcome w r s bad same = record {
    in_range = subst (AllInRange regs) (sym same) s.in_range;
    read_only =
        subst (KeepsReadOnly regs (w.memory cell)) (sym same)
          (KeepsReadOnly-refl regs (w.memory cell));
    bytes = inl (bad, same);
  }

  -- The world that an accepted write returns.
  abbrev stored : World K → World K
  stored w =
      change_and_publish k p t obs (λ v bs. write_at bs offset (v.memory buf) n)
        (propose k p t area offset buf n w)

  stored-cell :
      Spares L p obs cell
      → (w : World K) → IsSound w
      → (stored w).memory cell ≡ merged L p t area cell buf offset n w
  stored-cell spares w s =
      let w1 = propose k p t area offset buf n w in
      published-memory L p t obs cell spares (λ v bs. write_at bs offset (v.memory buf) n) w1
        (proposed-IsReady L p t area cell buf offset n w s.ready s.limit)
        (subst (λ i. 0 < i) (sym (proposed-limit L p t area cell buf offset n w s.ready)) s.limit)
      ∙ ap (λ b. write_at b offset (w1.memory buf) n)
          (proposed-cell L p t area cell buf offset n w s.ready s.separate)
      ∙ ap (λ b. write_at (w.memory cell) offset b n)
          (proposed-buf L p t area cell buf offset n w s.ready s.separate)

  accepted-Outcome :
      Spares L p obs cell
      → (w : World K) → IsSound w
      → offset + n ≤ area.size
      → n ≤ length (w.memory buf)
      → check_reg_write_access regs offset n ≡ pos 0
      → validate_reg_write regs offset n (merged L p t area cell buf offset n w) ≡ pos 0
      → Outcome w (to_int n, stored w)
  accepted-Outcome spares w s inside enough access range =
      let mem = stored-cell spares w s in
      let h1 : offset + n < 65536 = omega (arith, s.small) in
      let h3 : offset + n ≤ length (w.memory cell) = omega (arith, s.sized) in
      record {
        in_range = subst (AllInRange regs) (sym mem) (
            write-AllInRange regs offset n (w.memory cell) (w.memory buf) s.placed h1 enough h3
              s.in_range range);
        read_only = subst (KeepsReadOnly regs (w.memory cell)) (sym mem) (
            write-KeepsReadOnly regs offset n (w.memory cell) (w.memory buf) s.placed h1 enough h3
              access);
        bytes = inr (ground arith, mem);
      }

  write-Outcome :
      Spares L p obs cell
      → (w : World K) → IsSound w
      → offset + n ≤ area.size
      → n ≤ length (w.memory buf)
      → (run_validator k p t obs (propose k p t area offset buf n w)).1
        ≡ propose k p t area offset buf n w
      → Outcome w (setting_reg_write k p t area offset buf n w)
  unfolding setting_reg_write
  write-Outcome spares w s inside enough pure =
      let w1 = propose k p t area offset buf n w in
      let cell1 = proposed-cell L p t area cell buf offset n w s.ready s.separate in
      let range = validate_reg_write regs offset n (w1.memory t.temp) in
      let temp =
        ap (validate_reg_write regs offset n)
          (proposed-temp L p t area cell buf offset n w s.ready s.separate s.sized) in
      rw (clip-inside area.size offset n s.small inside)
        (elim (Bool-cases (is_neg (check_reg_write_access regs offset n))) [
          | inl e ↦ rw e (refused-Outcome w (check_reg_write_access regs offset n, w) s e refl)
          | inr e ↦ elim (Bool-cases (is_neg range)) [
            | inl e2 ↦ rw (e, e2) (refused-Outcome w (range, w1) s e2 cell1)
            | inr e2 ↦ elim (Bool-cases (is_neg (run_validator k p t obs w1).0)) [
              | inl e3 ↦
                  rw (e, e2, e3)
                    (refused-Outcome w (run_validator k p t obs w1) s e3
                      (ap (λ (v : World K). v.memory cell) pure ∙ cell1))
              | inr e3 ↦
                  rw (e, e2, e3, pure)
                    (accepted-Outcome spares w s inside enough (access_zero regs offset n e)
                      (sym temp ∙ range_zero regs offset n (w1.memory t.temp) e2))
            ]
          ]
        ])

  -- A register area of less than 65536 bytes whose observable is free and holds as many bytes as
  -- the area, whose registers lie at their addresses and hold values of their ranges, and whose
  -- buffers are apart from each other. A write inside the area, from a buffer with as many bytes,
  -- whatever the checks of access and range and the validator say of it: every register is in its
  -- range afterwards and every read-only register is unchanged, and the write returned an error
  -- and left the bytes, or returned its length and they have the written ones merged in. The
  -- validator changes nothing, and every handler, ref and unref that runs while the observable
  -- notifies leaves its bytes, its struct and its semaphore as it found them, as a read of it
  -- does.
  pub write-safe :
      Spares L p obs cell
      → (w : World K) → IsSound w
      → offset + n ≤ area.size
      → n ≤ length (w.memory buf)
      → (run_validator k p t obs (propose k p t area offset buf n w)).1
        ≡ propose k p t area offset buf n w
      → let (ret, v) = setting_reg_write k p t area offset buf n w in
        AllInRange regs (v.memory cell)
        × KeepsReadOnly regs (w.memory cell) (v.memory cell)
        × (((is_neg ret ≡ true) × (v.memory cell ≡ w.memory cell))
            ⊎ ((ret ≡ pos n) × (v.memory cell ≡ merged L p t area cell buf offset n w)))
  write-safe spares w s inside enough pure =
      let o = write-Outcome spares w s inside enough pure in (o.in_range, o.read_only, o.bytes)
