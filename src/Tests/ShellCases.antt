-- ===== src/Tests/ShellCases.antt =====
-- The theorems on the shells at the settings of the other cases.
use zephyr_io.Prelude.{
  ℕ, ◌≡◌, refl, some, [], ◌∷◌, ◌++◌, true, pos, arith, ◌-◌, drop, replicate, ◌%◌, ◌^◌,
}
use zephyr_io.Table.Value.{register_type_size, settings_reg_validate_range, st_i16, st_u8}
use zephyr_io.Table.Areas.{settings_find_area, settings_find_reg}
use zephyr_io.Table.Api.{validate_proposed}
use zephyr_io.Groups.Access.{settings_write}
use zephyr_io.Shell.Text.{Text, strtoul, strtol, hex_bytes, hex_u16}
use zephyr_io.Shell.Values.{Floats, print_value, parse_value}
use zephyr_io.Shell.ReadBack.{parse_value-print_value}
use zephyr_io.Shell.TableCommands.{reply, cmd_settings_reg_read, cmd_settings_reg_write}
use zephyr_io.Shell.RegisterCommands.{store, cmd_reg_bulkw}
use zephyr_io.Shell.WriteRead.{in_union_of, reg_read-reg_write}
use zephyr_io.Shell.Bulk.{cmd_reg_bulkw-hex_bytes}
use zephyr_io.Tests.Machine.{machine, machine_laws}
use zephyr_io.Tests.ObservableCases.{reading, accepting-Spares}
use zephyr_io.Tests.TableCases.{area_at, registers, table, kept, speed, area-ctx}
use zephyr_io.Tests.GroupsCases.{strict, stored_at}
use zephyr_io.Groups.Configs.{network_group}

abbrev no_floats : Floats
no_floats = record { strtof = λ text. 0; strtod = λ text. 0; widen = λ n. n; print = λ n. [] }

prefixes :
    (strtoul (b' ' ∷ b'0' ∷ b'x' ∷ b'1' ∷ b'F' ∷ []) 0 ≡ 31)
    × (strtoul (b'0' ∷ b'1' ∷ b'7' ∷ b'8' ∷ []) 0 ≡ 15)
    × (strtoul (b'-' ∷ b'1' ∷ []) 0 ≡ 4294967295)
    × (strtol (b'+' ∷ b'7' ∷ b'!' ∷ []) 0 ≡ 7)
    × (strtoul (b'f' ∷ b'f' ∷ []) 16 ≡ 255)
    × (strtoul (b't' ∷ b'r' ∷ b'u' ∷ b'e' ∷ []) 0 ≡ 0)
unfolding strtoul strtol
prefixes = (refl, refl, refl, refl, refl, refl)

-- The int16_t with the bytes 156 and 255 is -100.
prints_minus : print_value no_floats st_i16 (156 ∷ 255 ∷ []) ≡ b'-' ∷ b'1' ∷ b'0' ∷ b'0' ∷ []
unfolding print_value
prints_minus = refl

size_two : 2 ≡ register_type_size st_i16
unfolding register_type_size
size_two = refl

parse_value-print_value_example :
    parse_value no_floats st_i16 (print_value no_floats st_i16 (156 ∷ 255 ∷ []))
    ≡ some ((156 ∷ 255 ∷ []) ++ replicate (8 - register_type_size st_i16) 0)
parse_value-print_value_example =
    parse_value-print_value no_floats st_i16 (156 ∷ 255 ∷ []) tt size_two
      (omega arith, (omega arith, tt))

abbrev command : Text
command = b'r' ∷ []

-- Address 16.
abbrev at_16 : Text
at_16 = b'0' ∷ b'x' ∷ b'1' ∷ b'0' ∷ []

found_area : settings_find_area table.areas (strtoul at_16 0 % 2 ^ 16) ≡ some (area_at 16)
unfolding settings_find_area strtoul
found_area = refl

found_reg :
    settings_find_reg table.reg_read table.ctx_at table.areas (strtoul at_16 0 % 2 ^ 16)
    ≡ some speed
unfolding settings_find_reg strtoul
found_reg = refl

size_one : 1 ≡ register_type_size st_u8
unfolding register_type_size
size_one = refl

in_range : settings_reg_validate_range speed (in_union_of st_u8 (42 ∷ [])) ≡ true
unfolding settings_reg_validate_range register_type_size
in_range = refl

proposed :
    validate_proposed machine reading table (area_at 16) 50 speed (in_union_of st_u8 (42 ∷ [])) kept
    ≡ (pos 0, kept)
unfolding validate_proposed
proposed = refl

reg_read-reg_write_example :
    let text = print_value no_floats st_u8 (42 ∷ []) in
    let (ret, printed, v) =
      cmd_settings_reg_write machine reading table no_floats true 98
        (command ∷ at_16 ∷ text ∷ [])
        kept in
    let (ret2, printed2, v2) =
      cmd_settings_reg_read machine reading table no_floats true 98 (command ∷ at_16 ∷ []) v in
    (ret ≡ pos 0) × (printed ≡ b'O' ∷ b'K' ∷ []) × (ret2 ≡ pos 0) × (printed2 ≡ text)
reg_read-reg_write_example =
    reg_read-reg_write machine_laws reading table no_floats (area_at 16)
      (record { observable = 50; regs = registers }) speed 52 98 area-ctx accepting-Spares command
      at_16 found_area found_reg (42 ∷ []) kept kept tt size_one (omega arith, tt) refl refl
      in_range proposed (record { buffer = refl; idle = refl; free = refl }) (omega arith)
      (omega arith)

abbrev no_text : ℕ → Text
no_text n = []

cmd_reg_bulkw-hex_bytes_example :
    let reg = strtoul (b'0' ∷ b'x' ∷ b'2' ∷ b'0' ∷ b'4' ∷ []) 0 % 2 ^ 16 in
    cmd_reg_bulkw machine strict
      (λ g. network_group)
      95
      no_text
      no_text
      (50 ∷ [])
      55
      (command ∷ (b'0' ∷ b'x' ∷ b'2' ∷ b'0' ∷ b'4' ∷ []) ∷ hex_bytes (187 ∷ 1 ∷ []) ∷ [])
      stored_at
    ≡ reply
        (λ n v. hex_u16 reg)
        (settings_write machine strict
          (λ g. network_group)
          95
          reg
          55
          2
          (50 ∷ [])
          (store machine strict
            (λ g. network_group)
            95
            no_text
            no_text
            (50 ∷ [])
            55
            ((187 ∷ 1 ∷ []) ++ drop 2 (stored_at.memory 55))
            stored_at))
cmd_reg_bulkw-hex_bytes_example =
    cmd_reg_bulkw-hex_bytes machine strict (λ g. network_group) 95 no_text no_text (50 ∷ []) 55
      command (b'0' ∷ b'x' ∷ b'2' ∷ b'0' ∷ b'4' ∷ []) (187 ∷ 1 ∷ []) stored_at
      (omega arith, (omega arith, tt)) (omega arith)
