-- ===== src/Groups/Bulk.antt =====
-- Bytes that settings_write of settings.c writes from a register on, and settings_read reads.
use zephyr_io.Prelude.{
  ℕ, ◌≡◌, ◌≤◌, ◌<◌, ◌∙◌, refl, ap, sym, Option, none, some, List, ℤ, length, take,
}
use zephyr_io.World.{Ptr, Observable, World}
use zephyr_io.Kernel.{forever, Kernel, Program, Lawful}
use zephyr_io.Observable.{weave_observable_finish, weave_observable_publish}
use zephyr_io.Observable.Guard.{claimed, claim-free}
use zephyr_io.Observable.Store.{IsReady}
use zephyr_io.Observable.Notified.{Spares}
use zephyr_io.Table.Access.{to_int, write_at}
use zephyr_io.Groups.Registry.{SettingGroup, settings_find_obs, settings_get_group}
use zephyr_io.Groups.Access.{
  limited, size_of, copy_to, copy_from, read_claimed, settings_read, write_claimed, settings_write,
}
use zephyr_io.Groups.Stored.{unchecked-Checked, after-IsSettled, after-value, read-after}

module _ {K : Type 0} {k : Kernel K} (L : Lawful k) (p : Program K) (group_at : Ptr → SettingGroup)
    (temp obs value buf : Ptr) (registry : List Ptr) (reg offset len : ℕ) where
  -- The number of bytes that a read or a write covers.
  abbrev pub covered : World K → ℕ
  covered w =
      limited (size_of (settings_get_group p group_at w obs)) (w.observables obs).size offset len

  -- The world that the write publishes, returned.
  abbrev written : World K → World K
  written w =
      (weave_observable_publish k p (some obs)
        (copy_to k p group_at temp value offset buf (covered w) (claimed L p obs forever w))).1

  write_eq :
      (w : World K)
      → IsReady L p obs value w
      → settings_find_obs p group_at w reg registry ≡ some (obs, offset)
      → settings_write k p group_at temp reg buf len registry w ≡ (to_int (covered w), written w)
  unfolding settings_write write_claimed
  write_eq w r found =
      rw (found, settings_write)
        (ap
            (λ (c : Option Ptr × World K).
              write_claimed k p group_at temp c.0 obs offset buf (covered w) c.1)
            (claim-free L p obs forever w 0 r.free)
          ∙ ap
              (λ c.
                write_claimed k p group_at temp c obs offset buf (covered w)
                  (claimed L p obs forever w))
              r.buffer)

  read_eq :
      (out : Ptr) (w : World K)
      → IsReady L p obs value w
      → settings_find_obs p group_at w reg registry ≡ some (obs, offset)
      → settings_read k p group_at temp reg out len registry w ≡ (
        to_int (covered w),
        weave_observable_finish k
            (some obs)
            (copy_from k p group_at temp value offset out (covered w) (claimed L p obs forever w)),
      )
  unfolding settings_read read_claimed
  read_eq out w r found =
      rw (found, settings_read)
        (ap
            (λ (c : Option Ptr × World K).
              read_claimed k p group_at temp c.0 obs offset out (covered w) c.1)
            (claim-free L p obs forever w 0 r.free)
          ∙ ap
              (λ c.
                read_claimed k p group_at temp c obs offset out (covered w)
                  (claimed L p obs forever w))
              r.buffer)

  covered-same : (w v : World K) → v.observables obs ≡ w.observables obs → covered v ≡ covered w
  unfolding settings_get_group
  covered-same w v e =
      ap
        (λ (o : Observable).
          limited
            (size_of (elim (p.sink_at o.owner_sink).user_data [
              | none ↦ none
              | some g ↦ some (group_at g)
            ]))
            o.size offset len)
        e

  -- A write of bytes from a register on, to a free observable that has the register in its group's
  -- range, at an offset inside its value; the buffer has the bytes that the range and the struct
  -- have room for. If every handler, ref and unref that runs while the observable notifies leaves
  -- its bytes, its struct and its semaphore as it found them, as a read of it does, and if the
  -- register is found there again, these bytes replace those of the value, and a read of as many
  -- bytes from the register returns the number that the write returned and gives them back.
  pub settings_read-settings_write :
      (spares : Spares L p obs value)
      → (out : Ptr) (w : World K) → IsReady L p obs value w
      → 0 < (L.view w.kernel).limit (w.observables obs).sem
      → settings_find_obs p group_at w reg registry ≡ some (obs, offset)
      → settings_find_obs p group_at
          (settings_write k p group_at temp reg buf len registry w).1
          reg
          registry
        ≡ some (obs, offset)
      → offset ≤ length (w.memory value)
      → covered w ≤ length (w.memory buf)
      → let (ret, v) = settings_write k p group_at temp reg buf len registry w in
        let (ret2, v2) = settings_read k p group_at temp reg out len registry v in
        (ret ≡ to_int (covered w))
        × (v.memory value ≡ write_at (w.memory value) offset (w.memory buf) (covered w))
        × (ret2 ≡ ret)
        × (take (covered w) (v2.memory out) ≡ take (covered w) (w.memory buf))
  settings_read-settings_write spares out w r limit found again inside fits =
      let n = covered w in
      let c = unchecked-Checked L p group_at temp obs value buf offset n spares w in
      let cl = claimed L p obs forever w in
      let settled =
        after-IsSettled L p group_at temp obs value buf offset n spares w cl r limit c in
      let wrote = write_eq w r found in
      let found2 : settings_find_obs p group_at (written w) reg registry ≡ some (obs, offset) =
        ap (λ (x : ℤ × World K). settings_find_obs p group_at x.1 reg registry) (sym wrote)
        ∙ again in
      let same = covered-same w (written w) settled.same_observable in
      rw (wrote, read_eq out (written w) settled.ready found2, same)
        (
          refl,
          after-value L p group_at temp obs value buf offset n spares w cl r limit c,
          refl,
          read-after L p group_at temp obs value buf offset n spares w cl r limit c out inside fits,
        )
