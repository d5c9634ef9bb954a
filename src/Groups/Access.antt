-- ===== src/Groups/Access.antt =====
-- Reads and writes by register number and by field, and the validators of the two groups.
use zephyr_io.Prelude.{
  ℕ, ◌+◌, ◌-◌, ◌%◌, ◌^◌, Option, none, some, List, ℤ, pos, neg, is_neg, is_none, einval, enoent,
  eagain, eacces, take, drop, ltb, not, if◌then◌else◌,
}
use zephyr_io.World.{Ptr, World, update, copy_bytes}
use zephyr_io.Kernel.{forever, Kernel, Program}
use zephyr_io.Observable.{
  weave_observable_claim, weave_observable_finish, weave_observable_publish,
  weave_observable_validate,
}
use zephyr_io.Groups.Registry.{
  SettingField, SettingGroup, setting_type_size, settings_get_group, settings_find_obs,
}
use zephyr_io.Table.Access.{to_int, write_at}

abbrev smaller : ℕ → ℕ → ℕ
smaller a b = if ltb a b then a else b

-- The bytes that a read or a write of `len` bytes at an offset covers; size_t has 32 bits.
unfoldable pub limited : ℕ → ℕ → ℕ → ℕ → ℕ
limited grp_size obs_size offset len =
    let range_avail = (2 ^ 32 + grp_size - offset) % 2 ^ 32 in
    let struct_avail = (2 ^ 32 + obs_size - offset) % 2 ^ 32 in
    smaller len (smaller range_avail struct_avail)

abbrev pub size_of : Option SettingGroup → ℕ
size_of none = 0
size_of (some grp) = grp.size

module _ {K : Type 0} (k : Kernel K) (p : Program K) (group_at : Ptr → SettingGroup)
    (temp : Ptr) where
  -- `memcpy` from an offset of the value, and to one.
  abbrev pub copy_from : Ptr → ℕ → Ptr → ℕ → World K → World K
  copy_from value offset buf n w = record w {
    memory = update w.memory buf (copy_bytes (w.memory buf) (drop offset (w.memory value)) n);
  }

  abbrev pub copy_to : Ptr → ℕ → Ptr → ℕ → World K → World K
  copy_to value offset buf n w = record w {
    memory = update w.memory value (write_at (w.memory value) offset (w.memory buf) n);
  }

  unfoldable pub read_claimed : Option Ptr → Ptr → ℕ → Ptr → ℕ → World K → ℤ × World K
  read_claimed none obs offset buf n w = (neg eagain, w)
  read_claimed (some value) obs offset buf n w =
      (to_int n, weave_observable_finish k (some obs) (copy_from value offset buf n w))

  unfoldable pub settings_read : ℕ → Ptr → ℕ → List Ptr → World K → ℤ × World K
  settings_read reg buf len registry w = elim (settings_find_obs p group_at w reg registry) [
    | none ↦ (neg enoent, w)
    | some found ↦
        let (obs, offset) = found in
        let n =
          limited (size_of (settings_get_group p group_at w obs)) (w.observables obs).size offset
            len in
        let (value, w1) = weave_observable_claim k (some obs) forever w in
        read_claimed value obs offset buf n w1
  ]

  unfoldable pub write_claimed : Option Ptr → Ptr → ℕ → Ptr → ℕ → World K → ℤ × World K
  write_claimed none obs offset buf n w = (neg eagain, w)
  write_claimed (some value) obs offset buf n w =
      (to_int n, (weave_observable_publish k p (some obs) (copy_to value offset buf n w)).1)

  unfoldable pub settings_write : ℕ → Ptr → ℕ → List Ptr → World K → ℤ × World K
  settings_write reg buf len registry w = elim (settings_find_obs p group_at w reg registry) [
    | none ↦ (neg enoent, w)
    | some found ↦
        let (obs, offset) = found in
        let n =
          limited (size_of (settings_get_group p group_at w obs)) (w.observables obs).size offset
            len in
        let (value, w1) = weave_observable_claim k (some obs) forever w in
        write_claimed value obs offset buf n w1
  ]

  unfoldable pub get_claimed : Option Ptr → Ptr → SettingField → Ptr → World K → ℤ × World K
  unfolding setting_type_size
  get_claimed none obs field buf w = (neg eagain, w)
  get_claimed (some value) obs field buf w =
      let size = setting_type_size field.type in
      (pos size, weave_observable_finish k (some obs) (copy_from value field.offset buf size w))

  unfoldable pub settings_field_get :
      Option Ptr → Option SettingField → Option Ptr → World K → ℤ × World K
  unfolding get_claimed
  settings_field_get (some obs) (some field) (some buf) w =
      let (value, w1) = weave_observable_claim k (some obs) forever w in
      let got = get_claimed value obs field buf w1 in
      if not field.readable then (neg eacces, w) else got
  settings_field_get _ _ _ w = (neg einval, w)

  -- The array `temp` on the stack: the value with the new field.
  unfoldable pub with_field : Ptr → Ptr → SettingField → Ptr → World K → World K
  unfolding setting_type_size
  with_field value obs field buf w =
      let size = setting_type_size field.type in
      let proposed =
        write_at (take (w.observables obs).size (w.memory value)) field.offset (w.memory buf)
          size in
      record w { memory = update w.memory temp proposed }

  -- The validation, if there is a validator.
  unfoldable pub check_field : Ptr → Ptr → SettingField → Ptr → World K → ℤ × World K
  unfolding with_field
  check_field value obs field buf w =
      let checked =
        weave_observable_validate k p (some obs) (some temp) (with_field value obs field buf w) in
      if is_none (w.observables obs).validator then (pos 0, w) else checked

  unfoldable pub set_claimed : Option Ptr → Ptr → SettingField → Ptr → World K → ℤ × World K
  unfolding check_field setting_type_size
  set_claimed none obs field buf w = (neg eagain, w)
  set_claimed (some value) obs field buf w =
      let (ret, w1) = check_field value obs field buf w in
      let w2 = copy_to value field.offset buf (setting_type_size field.type) w1 in
      let published = weave_observable_publish k p (some obs) w2 in
      if is_neg ret then (ret, weave_observable_finish k (some obs) w1) else published

  unfoldable pub settings_field_set :
      Option Ptr → Option SettingField → Option Ptr → World K → ℤ × World K
  unfolding set_claimed
  settings_field_set (some obs) (some field) (some buf) w =
      let (value, w1) = weave_observable_claim k (some obs) forever w in
      let done = set_claimed value obs field buf w1 in
      if not field.writable then (neg eacces, w) else done
  settings_field_set _ _ _ w = (neg einval, w)
