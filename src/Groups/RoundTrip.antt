-- ===== src/Groups/RoundTrip.antt =====
-- A field that settings_field_set of settings.c writes and settings_field_get reads.
use zephyr_io.Prelude.{
  ℕ, ◌≡◌, ◌≢◌, ◌≤◌, ◌<◌, ◌∙◌, refl, ap, Option, some, true, false, ℤ, pos, neg, is_none, eacces,
  length, take, not, if◌then◌else◌, Bool-cases, inl, inr,
}
use zephyr_io.World.{Ptr, World}
use zephyr_io.Kernel.{forever, Kernel, Program, Lawful}
use zephyr_io.Core.Drain.{update_other}
use zephyr_io.Observable.{
  weave_observable_claim, weave_observable_finish, weave_observable_publish,
  weave_observable_validate,
}
use zephyr_io.Observable.Guard.{claimed, claim-free}
use zephyr_io.Observable.Store.{IsReady}
use zephyr_io.Observable.Notified.{Spares}
use zephyr_io.Table.Access.{write_at}
use zephyr_io.Groups.Registry.{SettingField, SettingGroup, setting_type_size}
use zephyr_io.Groups.Access.{
  with_field, check_field, set_claimed, settings_field_set, get_claimed, settings_field_get,
  copy_to, copy_from,
}
use zephyr_io.Groups.Stored.{Checked, unchecked-Checked, after-IsSettled, after-value, read-after}
use zephyr_io.Groups.Rejected.{checking, set_eq}

module _ {K : Type 0} {k : Kernel K} (L : Lawful k) (p : Program K) (group_at : Ptr → SettingGroup)
    (temp obs value : Ptr) (field : SettingField) (buf : Ptr) (spares : Spares L p obs value) where
  abbrev size : ℕ
  size = setting_type_size field.type

  get_eq :
      (out : Ptr) (w : World K)
      → IsReady L p obs value w
      → field.readable ≡ true
      → settings_field_get k p group_at temp (some obs) (some field) (some out) w ≡ (
        pos size,
        weave_observable_finish k
            (some obs)
            (copy_from k p group_at temp value field.offset out size (claimed L p obs forever w)),
      )
  unfolding settings_field_get get_claimed
  get_eq out w r h =
      ap (λ b. if not b then (neg eacces, w) else rest) h
      ∙ ap (λ (c : Option Ptr × World K). get_claimed k p group_at temp c.0 obs field out c.1)
          (claim-free L p obs forever w 0 r.free)
      ∙ ap (λ c. get_claimed k p group_at temp c obs field out (claimed L p obs forever w)) r.buffer
    where
      rest : ℤ × World K
      rest =
          let (v, w1) = weave_observable_claim k (some obs) forever w in
          get_claimed k p group_at temp v obs field out w1

  checking-Checked :
      (w : World K)
      → value ≢ temp
      → buf ≢ temp
      → Checked L p group_at temp obs value buf field.offset size spares w
          (checking L p group_at temp obs value field buf w)
  unfolding with_field
  checking-Checked w ne ne2 = record {
    same_kernel = refl;
    same_observables = refl;
    same_value = update_other w.memory temp value _ ne;
    same_buf = update_other w.memory temp buf _ ne2;
  }

  both :
      (w v : World K) (r : IsReady L p obs value w)
      → 0 < (L.view w.kernel).limit (w.observables obs).sem
      → Checked L p group_at temp obs value buf field.offset size spares w v
      → (out : Ptr) → field.readable ≡ true
      → field.offset ≤ length (w.memory value)
      → size ≤ length (w.memory buf)
      → let after =
          (weave_observable_publish k p
            (some obs)
            (copy_to k p group_at temp value field.offset buf size v)).1 in
        let (ret, v2) =
          settings_field_get k p group_at temp (some obs) (some field) (some out) after in
        (after.memory value ≡ write_at (w.memory value) field.offset (w.memory buf) size)
        × (ret ≡ pos size)
        × (take size (v2.memory out) ≡ take size (w.memory buf))
  both w v r limit c out h inside fits =
      let settled =
        after-IsSettled L p group_at temp obs value buf field.offset size spares w v r limit c in
      rw
        (get_eq out
          (weave_observable_publish k p (some obs)
            (copy_to k p group_at temp value field.offset buf size v)).1
          settled.ready h)
        (
          after-value L p group_at temp obs value buf field.offset size spares w v r limit c,
          refl,
          read-after L p group_at temp obs value buf field.offset size spares w v r limit c out
              inside fits,
        )

  -- The world that an accepted write publishes, from the world that the check leaves.
  abbrev published : World K → World K
  published v =
      (weave_observable_publish k p (some obs)
        (copy_to k p group_at temp value field.offset buf size v)).1

  set_claimed_unchecked :
      (w : World K)
      → is_none (w.observables obs).validator ≡ true
      → (set_claimed k p group_at temp (some value) obs field buf (claimed L p obs forever w)).1
        ≡ published (claimed L p obs forever w)
  unfolding set_claimed check_field
  set_claimed_unchecked w has = rw has refl

  set_claimed_checked :
      (w : World K)
      → is_none (w.observables obs).validator ≡ false
      → weave_observable_validate k p
          (some obs)
          (some temp)
          (checking L p group_at temp obs value field buf w)
        ≡ (pos 0, checking L p group_at temp obs value field buf w)
      → (set_claimed k p group_at temp (some value) obs field buf (claimed L p obs forever w)).1
        ≡ published (checking L p group_at temp obs value field buf w)
  unfolding set_claimed check_field
  set_claimed_checked w has accepts = rw (has, accepts) refl

  -- A write of a field that can be written and read and that starts inside the value, from a
  -- buffer with the bytes of its type, on a free observable whose validator, if it has one,
  -- accepts the proposed value and changes nothing; the value, the buffer and the array `temp` are
  -- apart. If every handler, ref and unref that runs while the observable notifies leaves its
  -- bytes, its struct and its semaphore as it found them, as a read of it does, its value differs
  -- at the field only, where it has the bytes of the buffer, and a read of the field returns its
  -- size and has copied these bytes.
  pub field_get-field_set :
      (out : Ptr) (w : World K)
      → IsReady L p obs value w
      → 0 < (L.view w.kernel).limit (w.observables obs).sem
      → value ≢ temp
      → buf ≢ temp
      → field.writable ≡ true
      → field.readable ≡ true
      → field.offset ≤ length (w.memory value)
      → size ≤ length (w.memory buf)
      → weave_observable_validate k p
          (some obs)
          (some temp)
          (checking L p group_at temp obs value field buf w)
        ≡ (pos 0, checking L p group_at temp obs value field buf w)
      → let v = (settings_field_set k p group_at temp (some obs) (some field) (some buf) w).1 in
        let (ret, v2) = settings_field_get k p group_at temp (some obs) (some field) (some out) v in
        (v.memory value ≡ write_at (w.memory value) field.offset (w.memory buf) size)
        × (ret ≡ pos size)
        × (take size (v2.memory out) ≡ take size (w.memory buf))
  field_get-field_set out w r limit ne ne2 wr rd inside fits accepts =
      let start =
        ap (λ (x : ℤ × World K). x.1) (set_eq L p group_at temp obs value field buf w r wr) in
      elim (Bool-cases (is_none (w.observables obs).validator)) [
        | inl e ↦ rw (start ∙ set_claimed_unchecked w e) (
            both w (claimed L p obs forever w) r limit
              (unchecked-Checked L p group_at temp obs value buf field.offset size spares w) out rd
              inside fits)
        | inr e ↦ rw (start ∙ set_claimed_checked w e accepts) (
            both w (checking L p group_at temp obs value field buf w) r limit
              (checking-Checked w ne ne2) out rd inside fits)
      ]
