-- ===== src/Shell/RegisterCommands.antt =====
-- The commands of main.c of the settings registers sample. A command has its arguments with its own
-- name first, and returns its result, what it prints when it succeeds, and the world.
use zephyr_io.Prelude.{
  ℕ, ◌+◌, ◌/◌, ◌%◌, ◌^◌, Option, none, some, List, [], ◌∷◌, ℤ, pos, neg, einval, enoent, length,
  take, map, replicate, ltb, ◌==◌, not, if◌then◌else◌,
}
use zephyr_io.World.{Ptr, World, update, copy_bytes}
use zephyr_io.Kernel.{Kernel, Program}
use zephyr_io.Table.Value.{unsigned}
use zephyr_io.Routing.Protocol.{le_bytes}
use zephyr_io.Groups.Registry.{
  SettingType, SettingField, SettingGroup, settings_find_reg, settings_get_group, settings_register,
  setting_u8, setting_u16, setting_u32, setting_u64, setting_i8, setting_i16, setting_i32,
  setting_i64, setting_f32, setting_f64, setting_bool,
}
use zephyr_io.Groups.Access.{settings_read, settings_write, settings_field_get, settings_field_set}
use zephyr_io.Shell.Text.{Text, strtoul, decimal, signed_decimal, hex_u16, hex_bytes}
use zephyr_io.Shell.Hex.{bytes_of_hex}
use zephyr_io.Shell.Values.{true_text, false_text}
use zephyr_io.Shell.TableCommands.{arg, reply}

-- `print_float` and `print_double` are %.6g of a float and of a double by their bit patterns.
module _ (print_float print_double : ℕ → Text) where
  -- What stands behind the name and the type.
  unfoldable pub field_text : SettingType → List ℕ → Text
  unfolding unsigned decimal signed_decimal
  field_text setting_u8 bs = decimal (unsigned 1 bs)
  field_text setting_u16 bs = decimal (unsigned 2 bs)
  field_text setting_u32 bs = decimal (unsigned 4 bs)
  field_text setting_u64 bs = decimal (unsigned 8 bs)
  field_text setting_i8 bs = signed_decimal (2 ^ 7) (unsigned 1 bs)
  field_text setting_i16 bs = signed_decimal (2 ^ 15) (unsigned 2 bs)
  field_text setting_i32 bs = signed_decimal (2 ^ 31) (unsigned 4 bs)
  field_text setting_i64 bs = signed_decimal (2 ^ 63) (unsigned 8 bs)
  field_text setting_f32 bs = print_float (unsigned 4 bs)
  field_text setting_f64 bs = print_double (unsigned 8 bs)
  field_text setting_bool bs = if unsigned 1 bs == 0 then false_text else true_text

-- `temp` is the array on the stack of settings_field_set, `buf` the buffer of a command.
module _ {K : Type 0} (k : Kernel K) (p : Program K) (group_at : Ptr → SettingGroup) (temp : Ptr)
    (print_float print_double : ℕ → Text) (registry : List Ptr) (buf : Ptr) where
  abbrev pub store : List ℕ → World K → World K
  store bs w = record w { memory = update w.memory buf bs }

  -- `value` is a uint64_t.
  unfoldable pub read_found : Option (Ptr × SettingField) → World K → ℤ × Text × World K
  unfolding settings_field_get field_text
  read_found none w = (neg enoent, [], w)
  read_found (some (obs, field)) w =
      let (ret, w1) =
        settings_field_get k p group_at temp (some obs) (some field) (some buf)
          (store (le_bytes 8 0) w) in
      (pos 0, field_text print_float print_double field.type (w1.memory buf), w1)

  unfoldable pub cmd_reg_read : List Text → World K → ℤ × Text × World K
  unfolding strtoul settings_find_reg read_found
  cmd_reg_read argv w =
      let reg = strtoul (arg argv 1) 0 % 2 ^ 16 in
      let done = read_found (settings_find_reg p group_at w reg registry) w in
      if not (length argv == 2) then (neg einval, [], w) else done

  unfoldable pub write_found : ℕ → Option (Ptr × SettingField) → World K → ℤ × Text × World K
  unfolding settings_field_set field_text
  write_found value none w = (neg enoent, [], w)
  write_found value (some (obs, field)) w =
      reply (λ n v. field_text print_float print_double field.type (v.memory buf))
        (settings_field_set k p group_at temp (some obs) (some field) (some buf)
          (store (le_bytes 8 value) w))

  unfoldable pub cmd_reg_write : List Text → World K → ℤ × Text × World K
  unfolding strtoul settings_find_reg write_found
  cmd_reg_write argv w =
      let reg = strtoul (arg argv 1) 0 % 2 ^ 16 in
      let done =
        write_found (strtoul (arg argv 2) 0) (settings_find_reg p group_at w reg registry) w in
      if not (length argv == 3) then (neg einval, [], w) else done

  -- The buffer has 16 bytes; it prints the register and the number of bytes in front of them.
  unfoldable pub cmd_reg_bulkr : List Text → World K → ℤ × Text × World K
  unfolding strtoul settings_read hex_bytes
  cmd_reg_bulkr argv w =
      let reg = strtoul (arg argv 1) 0 % 2 ^ 16 in
      let len = strtoul (arg argv 2) 0 in
      let done =
        reply (λ n v. hex_bytes (take n (v.memory buf)))
          (settings_read k p group_at temp reg buf len registry (store (replicate 16 0) w)) in
      if not (length argv == 3)
      then (neg einval, [], w)
      else if ltb 16 len
      then (neg einval, [], w)
      else done

  -- It prints the register behind "Wrote %d bytes to 0x". The rest of the buffer is what the stack
  -- held there.
  unfoldable pub cmd_reg_bulkw : List Text → World K → ℤ × Text × World K
  unfolding strtoul settings_write bytes_of_hex hex_u16
  cmd_reg_bulkw argv w =
      let reg = strtoul (arg argv 1) 0 % 2 ^ 16 in
      let hex = arg argv 2 in
      let len = length hex / 2 in
      let done =
        reply (λ n v. hex_u16 reg)
          (settings_write k p group_at temp reg buf len registry
            (store (copy_bytes (w.memory buf) (bytes_of_hex hex) len) w)) in
      if not (length argv == 3)
      then (neg einval, [], w)
      else if not (length hex % 2 == 0)
      then (neg einval, [], w)
      else if ltb 16 len
      then (neg einval, [], w)
      else done

  -- The values of a group's fields, each read into a `uint32_t` that is 0 before.
  unfoldable pub get_fields : Ptr → List SettingField → World K → List ℕ × World K
  unfolding settings_field_get
  get_fields obs [] w = ([], w)
  get_fields obs (f ∷ fields) w =
      let (ret, w1) =
        settings_field_get k p group_at temp (some obs) (some f) (some buf)
          (store (le_bytes 4 0) w) in
      let (values, w2) = get_fields obs fields w1 in (unsigned 4 (w1.memory buf) ∷ values, w2)

  abbrev fields_of : Option SettingGroup → List SettingField
  fields_of none = []
  fields_of (some grp) = grp.fields

  -- The values in the order in which they are printed, one list for each group.
  unfoldable pub get_groups : List Ptr → World K → List (List ℕ) × World K
  unfolding get_fields settings_get_group
  get_groups [] w = ([], w)
  get_groups (obs ∷ rest) w =
      let (values, w1) = get_fields obs (fields_of (settings_get_group p group_at w obs)) w in
      let (others, w2) = get_groups rest w1 in (values ∷ others, w2)

  unfoldable pub cmd_get : List Text → World K → ℤ × List (List ℕ) × World K
  unfolding get_groups
  cmd_get argv w = let (values, w1) = get_groups registry w in (pos 0, values, w1)

  -- A line of the list: the register of a field and its type. A group without a group, which C
  -- would read through NULL, has none.
  abbrev line_of : ℕ → SettingField → ℕ × SettingType
  line_of base_reg f = (base_reg + f.reg, f.type)

  abbrev lines_of : Option SettingGroup → List (ℕ × SettingType)
  lines_of none = []
  lines_of (some grp) = map (line_of grp.base_reg) grp.fields

  unfoldable pub list_groups : List Ptr → World K → List (List (ℕ × SettingType))
  unfolding settings_get_group
  list_groups [] w = []
  list_groups (obs ∷ rest) w = lines_of (settings_get_group p group_at w obs) ∷ list_groups rest w

  unfoldable pub cmd_reg_list : List Text → World K → ℤ × List (List (ℕ × SettingType))
  unfolding list_groups
  cmd_reg_list argv w = (pos 0, list_groups registry w)

-- `main`: the two groups are registered.
unfoldable pub main : Ptr → Ptr → List Ptr → ℤ × List Ptr
unfolding settings_register
main motor_settings network_settings registry = (
  pos 0,
  (settings_register (some network_settings)
      (settings_register (some motor_settings) registry).1).1,
)
