-- ===== src/Tests/TableCases.antt =====
-- The theorems on samples/settings_table/src/settings_api.c at an area of two registers.
use zephyr_io.Prelude.{
  is_neg, ◌≤◌, take, ℕ, ◌≡◌, ◌↔◌, ◌⊎◌, inr, refl, some, List, [], ◌∷◌, true, false, pos, neg,
  erange, arith, ◌==◌, if◌then◌else◌,
}
use zephyr_io.World.{World}
use zephyr_io.Table.Value.{
  SettingReg, register_type_size, settings_reg_validate_range, read_value_from_mem, value_less_than,
  value_greater_than, unsigned, st_u8, st_u16,
}
use zephyr_io.Table.Areas.{
  SettingArea, ranges_overlap, validate_area_addresses, validate_reg_area, setting_area_get_reg_ctx,
}
use zephyr_io.Table.Access.{
  Settings, touches, check_reg_write_access, validate_reg_write, run_validator, propose, write_at,
  setting_reg_write,
}
use zephyr_io.Table.Layout.{AllFit, Disjoint, validate_area_addresses-Disjoint, end-unchecked}
use zephyr_io.Table.Registers.{WellFormed, validate_reg_area-WellFormed}
use zephyr_io.Table.Guarded.{AllPlaced, AllInRange, KeepsReadOnly}
use zephyr_io.Table.Writes.{IsSeparate, merged}
use zephyr_io.Table.Safety.{IsSound, write-safe}
use zephyr_io.Table.Api.{validate_proposed, settings_reg_set, settings_reg_get, settings_sys_init}
use zephyr_io.Table.Order.{validate_range-IsUnsigned, u8}
use zephyr_io.Table.Start.{AllWellFormed, settings_sys_init-WellFormed}
use zephyr_io.Table.SetGet.{reg_get-reg_set}
use zephyr_io.Tests.ObservableCases.{reading, accepting-Spares}
use zephyr_io.Tests.Machine.{Machine, machine, machine_laws, app, start}

abbrev pub area_at : ℕ → SettingArea
area_at base = record { base = base; size = 4; read = 1; write = 2; ctx = 3 }

abbrev pub section : List SettingArea
section = area_at 16 ∷ area_at 32 ∷ []

-- A byte from 0 to 100 that can be written, and a read-only word.
abbrev pub registers : List SettingReg
registers =
    record {
      addr = 0;
      offset = 0;
      type = st_u8;
      readable = true;
      writable = true;
      no_range = false;
      min = 0 ∷ [];
      max = 100 ∷ [];
      dflt = 7 ∷ [];
    }
    ∷ record {
      addr = 2;
      offset = 2;
      type = st_u16;
      readable = true;
      writable = false;
      no_range = true;
      min = [];
      max = [];
      dflt = 1 ∷ 2 ∷ [];
    }
    ∷ []

abbrev pub table : Settings Machine
table = record {
  areas = section;
  ctx_at = λ a. record { observable = 50; regs = registers };
  reg_read = 1;
  reg_write = 2;
  temp = 95;
  call_read = λ f a o b n w. (pos 0, w);
  call_write = λ f a o b n w. (pos 0, w);
}

abbrev pub kept : World Machine
kept = record start {
  memory = λ a.
      if a == 52
      then 9 ∷ 0 ∷ 1 ∷ 2 ∷ []
      else if a == 55
      then 8 ∷ 9 ∷ []
      else if a == 56
      then 200 ∷ []
      else [];
}

section-fits : AllFit section
section-fits = (omega arith, (omega arith, tt))

validate_area_addresses-Disjoint_example :
    (validate_area_addresses section ≡ pos 0) ↔ Disjoint section
validate_area_addresses-Disjoint_example = validate_area_addresses-Disjoint section section-fits

end-unchecked_example : validate_area_addresses (area_at 65532 ∷ area_at 65530 ∷ []) ≡ pos 0
end-unchecked_example = end-unchecked (area_at 65532) (area_at 65530) refl

section-Disjoint : Disjoint section
section-Disjoint = ((inr (omega arith), tt), (tt, tt))

validate_reg_area-WellFormed_example :
    (validate_reg_area 4 registers ≡ pos 0) ↔ WellFormed 4 registers
validate_reg_area-WellFormed_example = validate_reg_area-WellFormed 4 registers (omega arith)

registers-AllPlaced : AllPlaced registers
unfolding register_type_size
registers-AllPlaced = ((refl, omega arith), ((refl, omega arith), tt))

registers-AllInRange : AllInRange registers (kept.memory 52)
unfolding settings_reg_validate_range value_less_than value_greater_than unsigned
    read_value_from_mem register_type_size
registers-AllInRange = (refl, (refl, tt))

abbrev new_bytes : List ℕ
new_bytes = write_at (kept.memory 52) 0 (kept.memory 55) 2

range_ok : validate_reg_write registers 0 2 new_bytes ≡ pos 0
unfolding validate_reg_write touches ranges_overlap settings_reg_validate_range value_less_than
    value_greater_than unsigned read_value_from_mem register_type_size
range_ok = refl

access_ok : check_reg_write_access registers 0 2 ≡ pos 0
unfolding check_reg_write_access touches ranges_overlap register_type_size
access_ok = refl

access_one : check_reg_write_access registers 0 1 ≡ pos 0
unfolding check_reg_write_access touches ranges_overlap register_type_size
access_one = refl

range_no :
    validate_reg_write registers 0 1 (write_at (kept.memory 52) 0 (kept.memory 56) 1) ≡ neg erange
unfolding validate_reg_write touches ranges_overlap settings_reg_validate_range value_less_than
    value_greater_than unsigned read_value_from_mem register_type_size
range_no = refl

IsSeparate-55 : IsSeparate table 52 55
IsSeparate-55 = record {
  cell_temp = λ e. ground arith;
  buf_temp = λ e. ground arith;
  buf_cell = λ e. ground arith;
}

IsSeparate-56 : IsSeparate table 52 56
IsSeparate-56 = record {
  cell_temp = λ e. ground arith;
  buf_temp = λ e. ground arith;
  buf_cell = λ e. ground arith;
}

kept-IsSound : IsSound machine_laws reading table (area_at 16) 52 55 0 2 kept
kept-IsSound = record {
  ready = record { buffer = refl; idle = refl; free = refl };
  limit = omega arith;
  separate = IsSeparate-55;
  sized = refl;
  small = omega arith;
  placed = registers-AllPlaced;
  in_range = registers-AllInRange;
}

-- The validator accepts, and the owner and an observer are handlers that read the observable.
accepts :
    (run_validator machine reading table 50
      (propose machine reading table (area_at 16) 0 55 2 kept)).1
    ≡ propose machine reading table (area_at 16) 0 55 2 kept
unfolding run_validator propose
accepts = refl

write-safe_example :
    let (ret, v) = setting_reg_write machine reading table (area_at 16) 0 55 2 kept in
    AllInRange registers (v.memory 52)
    × KeepsReadOnly registers (kept.memory 52) (v.memory 52)
    × (((is_neg ret ≡ true) × (v.memory 52 ≡ kept.memory 52))
        ⊎ ((ret ≡ pos 2)
            × (v.memory 52 ≡ merged machine_laws reading table (area_at 16) 52 55 0 2 kept)))
write-safe_example =
    write-safe machine_laws reading table (area_at 16) 52 55 0 2 accepting-Spares kept kept-IsSound
      (omega arith) (omega arith) accepts

abbrev pub speed : SettingReg
speed = record {
  addr = 0;
  offset = 0;
  type = st_u8;
  readable = true;
  writable = true;
  no_range = false;
  min = 0 ∷ [];
  max = 100 ∷ [];
  dflt = 7 ∷ [];
}

proposed_42 :
    validate_proposed machine reading table (area_at 16) 50 speed (42 ∷ []) kept ≡ (pos 0, kept)
unfolding validate_proposed
proposed_42 = refl

pub area-ctx :
    setting_area_get_reg_ctx 1 table.ctx_at (area_at 16)
    ≡ some (record { observable = 50; regs = registers })
unfolding setting_area_get_reg_ctx
area-ctx = refl

speed_range : settings_reg_validate_range speed (42 ∷ []) ≡ true
unfolding settings_reg_validate_range value_less_than value_greater_than unsigned
speed_range = refl

size_one : register_type_size st_u8 ≤ 1
unfolding register_type_size
size_one = omega arith

reg_get-reg_set_example :
    let (ret, v) =
      settings_reg_set machine reading table true (some (area_at 16)) (some speed) (42 ∷ []) kept in
    let (ret2, v2) =
      settings_reg_get machine reading table true (some (area_at 16)) (some speed) (some 98) v in
    (ret ≡ pos 0)
    × (ret2 ≡ pos 0)
    × (take (register_type_size st_u8) (v2.memory 98) ≡ take (register_type_size st_u8) (42 ∷ []))
reg_get-reg_set_example =
    reg_get-reg_set machine_laws reading table (area_at 16)
      (record { observable = 50; regs = registers }) speed 52 area-ctx accepting-Spares (42 ∷ []) 98
      kept kept refl refl speed_range size_one proposed_42
      (record { buffer = refl; idle = refl; free = refl }) (omega arith) (omega arith)

settings_sys_init-WellFormed_example :
    let (ret, mark, w1) = settings_sys_init machine app table false kept in
    ((ret ≡ pos 0) × (mark ≡ true) × Disjoint section × AllWellFormed machine app table section)
    ⊎ ((is_neg ret ≡ true) × (mark ≡ false))
settings_sys_init-WellFormed_example =
    settings_sys_init-WellFormed machine app table false kept section-fits

validate_range-IsUnsigned_example :
    let n = register_type_size st_u8 in
    (settings_reg_validate_range speed (42 ∷ []) ≡ true) ↔ (
      (unsigned n (0 ∷ []) ≤ unsigned n (42 ∷ [])) × (unsigned n (42 ∷ []) ≤ unsigned n (100 ∷ [])))
validate_range-IsUnsigned_example = validate_range-IsUnsigned speed (42 ∷ []) u8 refl
