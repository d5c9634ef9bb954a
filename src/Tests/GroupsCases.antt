-- ===== src/Tests/GroupsCases.antt =====
-- The theorems on samples/settings_registers/src at the group of the network settings.
use zephyr_io.Prelude.{
  ◌≡◌, ◌⊎◌, refl, none, some, [], ◌∷◌, true, false, pos, take, neg, einval, arith, ◌==◌,
  if◌then◌else◌,
}
use zephyr_io.World.{Ptr, World}
use zephyr_io.Kernel.{Program}
use zephyr_io.Observable.{
  weave_observable_claim, weave_observable_publish, weave_observable_finish, notify, notify_owner,
  weave_observable_validate,
}
use zephyr_io.Groups.Registry.{
  settings_find_obs, settings_get_group, offset_in, or_else, SettingField, setting_type_size,
  settings_find_reg, setting_u16,
}
use zephyr_io.Groups.Access.{
  settings_read, settings_write, write_claimed, limited, with_field, settings_field_set,
  settings_field_get,
}
use zephyr_io.Groups.Configs.{network_group, network_validate}
use zephyr_io.Groups.Lookup.{IsIn, HasField, NoGroup, find_reg_sound}
use zephyr_io.Groups.Rejected.{checking}
use zephyr_io.Groups.Bulk.{settings_read-settings_write}
use zephyr_io.Core.{weave_source_emit, emit_from, sink_deliver}
use zephyr_io.Groups.RoundTrip.{field_get-field_set}
use zephyr_io.Tests.ObservableCases.{Validator, reading_with, reading-Spares}
use zephyr_io.Tests.Machine.{Machine, machine, machine_laws, app, start}

abbrev pub port : SettingField
port = record { reg = 4; offset = 4; type = setting_u16; readable = true; writable = true }

-- Every value is refused by the validator.
abbrev pub strict : Program Machine
strict = record app {
  sink_at = λ s. record { handler = none; user_data = some 97; queue = none };
  call_validator = λ v obs value ud w. (neg einval, w);
}

abbrev pub stored_at : World Machine
stored_at = record start {
  observables = λ a. record {
    source = 51;
    value = some 52;
    size = 8;
    sem = 53;
    owner_sink = 4;
    validator = some 96;
    publishing = false;
  };
  memory = λ a. if a == 52 then 1 ∷ 2 ∷ 3 ∷ 4 ∷ 80 ∷ 0 ∷ 1 ∷ 0 ∷ [] else 0 ∷ 0 ∷ [];
}

find_reg_sound_example :
    ((obs : Ptr) × (f : SettingField) × (settings_find_reg strict
          (λ g. network_group)
          stored_at
          0x204
          (50 ∷ [])
        ≡ some (obs, f))
      × IsIn obs (50 ∷ [])
      × HasField strict (λ g. network_group) stored_at 0x204 obs f)
    ⊎ ((settings_find_reg strict (λ g. network_group) stored_at 0x204 (50 ∷ []) ≡ none)
        × NoGroup strict (λ g. network_group) stored_at 0x204 (50 ∷ []))
find_reg_sound_example = find_reg_sound strict (λ g. network_group) stored_at 0x204 (50 ∷ [])

-- The validator of the network group, on the bytes of the proposed value.
abbrev checks_network : Validator
checks_network v obs data_ ud w = elim data_ [
  | none ↦ (pos 0, w)
  | some a ↦ (network_validate (w.memory a), w)
]

-- The buffer at 55 has port 0x100.
abbrev proposed : World Machine
proposed = record stored_at { memory = λ a. if a == 55 then 0 ∷ 1 ∷ [] else stored_at.memory a }

accepts :
    weave_observable_validate machine (reading_with checks_network) (some 50) (some 95) (
      checking machine_laws
        (reading_with checks_network)
        (λ g. network_group)
        95
        50
        52
        port
        55
        proposed)
    ≡ (
      pos 0,
      checking machine_laws
          (reading_with checks_network)
          (λ g. network_group)
          95
          50
          52
          port
          55
          proposed,
    )
unfolding weave_observable_validate with_field network_validate
accepts = refl

field_get-field_set_example :
    let v =
      (settings_field_set machine
        (reading_with checks_network)
        (λ g. network_group)
        95
        (some 50)
        (some port)
        (some 55)
        proposed).1 in
    let (ret, v2) =
      settings_field_get machine
        (reading_with checks_network)
        (λ g. network_group)
        95
        (some 50)
        (some port)
        (some 56)
        v in
    (v.memory 52 ≡ 1 ∷ 2 ∷ 3 ∷ 4 ∷ 0 ∷ 1 ∷ 1 ∷ 0 ∷ [])
    × (ret ≡ pos 2)
    × (take 2 (v2.memory 56) ≡ 0 ∷ 1 ∷ [])
unfolding setting_type_size
field_get-field_set_example =
    field_get-field_set machine_laws (reading_with checks_network) (λ g. network_group) 95 50 52
      port 55 (reading-Spares checks_network) 56 proposed
      (record { buffer = refl; idle = refl; free = refl }) (omega arith) (λ e. ground arith)
      (λ e. ground arith) refl refl (omega arith) (omega arith) accepts

-- The buffer at 55 has 8 bytes for the register 0x202, of which the group has room for 6.
abbrev bulk : World Machine
bulk = record stored_at {
  memory = λ a. if a == 55 then 9 ∷ 8 ∷ 7 ∷ 6 ∷ 5 ∷ 4 ∷ 3 ∷ 2 ∷ [] else stored_at.memory a;
}

-- No sink has a handler, so the world that the write returns is known.
found_again :
    settings_find_obs
      (reading_with checks_network)
      (λ g. network_group)
      (settings_write machine
        (reading_with checks_network)
        (λ g. network_group)
        95
        0x202
        55
        8
        (50 ∷ [])
        bulk).1
      0x202
      (50 ∷ [])
    ≡ some (50, 2)
unfolding settings_find_obs settings_get_group offset_in or_else settings_write write_claimed
    limited weave_observable_claim weave_observable_publish weave_observable_finish notify
    notify_owner weave_source_emit emit_from sink_deliver
found_again = refl

settings_read-settings_write_example :
    let (ret, v) =
      settings_write machine
        (reading_with checks_network)
        (λ g. network_group)
        95
        0x202
        55
        8
        (50 ∷ [])
        bulk in
    let (ret2, v2) =
      settings_read machine
        (reading_with checks_network)
        (λ g. network_group)
        95
        0x202
        56
        8
        (50 ∷ [])
        v in
    (ret ≡ pos 6)
    × (v.memory 52 ≡ 1 ∷ 2 ∷ 9 ∷ 8 ∷ 7 ∷ 6 ∷ 5 ∷ 4 ∷ [])
    × (ret2 ≡ ret)
    × (take 6 (v2.memory 56) ≡ 9 ∷ 8 ∷ 7 ∷ 6 ∷ 5 ∷ 4 ∷ [])
unfolding settings_find_obs settings_get_group offset_in or_else limited
settings_read-settings_write_example =
    settings_read-settings_write machine_laws (reading_with checks_network) (λ g. network_group) 95
      50 52 55 (50 ∷ []) 0x202 2 8 (reading-Spares checks_network) 56 bulk
      (record { buffer = refl; idle = refl; free = refl }) (omega arith) refl found_again
      (omega arith) (omega arith)
