-- ===== src/Tests/SampleCases.antt =====
-- The image of the settings table sample at the small machine: the motor's validator holds over the
-- sets of its registers.
use zephyr_io.Prelude.{
  ◌≡◌, ◌≢◌, refl, Option, none, some, [], ◌∷◌, neg, einval, true, false, pos, is_neg, arith,
}
use zephyr_io.World.{Ptr, World}
use zephyr_io.Observable.Store.{IsReady}
use zephyr_io.Observable.Notified.{Spares}
use zephyr_io.Table.Value.{SettingReg}
use zephyr_io.Table.Areas.{setting_area_get_reg_ctx, validate_reg_area}
use zephyr_io.Table.Value.{register_type_size}
use zephyr_io.Table.Access.{Settings, write_defaults}
use zephyr_io.Table.Api.{settings_reg_set, settings_reset_defaults}
use zephyr_io.Table.Define.{define_register, reg_ctx_define, st_flag_rw}
use zephyr_io.Table.SampleAreas.{
  motor_area, motor_regs, motor_validate, sensor_regs, sensor_validate, sample_settings, enabled,
}
use zephyr_io.Table.Registers.{WellFormed, validate_reg_area-WellFormed}
use zephyr_io.Table.Defaults.{AllDefault, AllWhole, reset_defaults-AllDefault}
use zephyr_io.Table.Validated.{Guards, reg_set-Accepts}
use zephyr_io.Tests.Machine.{Machine, machine, machine_laws, start}
use zephyr_io.Tests.ObservableCases.{Validator, reading_with, reading-Spares}

-- The defaults pass the validators.
defaults_pass :
    (motor_validate (write_defaults motor_regs (0 ∷ 0 ∷ 0 ∷ 0 ∷ 0 ∷ 0 ∷ 0 ∷ 0 ∷ [])) ≡ pos 0)
    × (write_defaults motor_regs (0 ∷ 0 ∷ 0 ∷ 0 ∷ 0 ∷ 0 ∷ 0 ∷ 0 ∷ [])
        ≡ 232 ∷ 3 ∷ 244 ∷ 1 ∷ 0 ∷ 0 ∷ 0 ∷ 0 ∷ [])
    × (write_defaults sensor_regs (0 ∷ 0 ∷ 0 ∷ 0 ∷ 0 ∷ 0 ∷ 0 ∷ 0 ∷ 0 ∷ 0 ∷ 0 ∷ 0 ∷ [])
        ≡ 100 ∷ 0 ∷ 0 ∷ 0 ∷ 0 ∷ 0 ∷ 128 ∷ 63 ∷ 15 ∷ 0 ∷ 0 ∷ 0 ∷ [])
    × (is_neg (sensor_validate (0 ∷ 0 ∷ 0 ∷ 0 ∷ 0 ∷ 0 ∷ 0 ∷ 0 ∷ 0 ∷ [])) ≡ true)
unfolding motor_validate motor_regs sensor_regs sensor_validate write_defaults
defaults_pass = (refl, refl, refl, refl)

abbrev checks_motor : Validator
checks_motor v obs none ud w = (neg einval, w)
checks_motor v obs (some cell) ud w = (motor_validate (w.memory cell), w)

abbrev image : Settings Machine
image = sample_settings 50 60 95

abbrev enabled_reg : SettingReg
enabled_reg = define_register 5 enabled 0 1 0 st_flag_rw

-- The motor is off at speed 0.
abbrev motor_off : World Machine
motor_off = record start {
  observables = λ a. record {
    source = 51;
    value = some 52;
    size = 8;
    sem = 53;
    owner_sink = 4;
    validator = some 96;
    publishing = false;
  };
  memory = λ a. 0 ∷ 0 ∷ 244 ∷ 1 ∷ 0 ∷ 0 ∷ 0 ∷ 0 ∷ [];
}

motor_off-Guards :
    Guards machine_laws
      (reading_with checks_motor)
      motor_area
      (reg_ctx_define 50 motor_regs)
      52
      96
      motor_off
unfolding motor_area reg_ctx_define
motor_off-Guards = record {
  ready = record { buffer = refl; idle = refl; free = refl };
  limit = omega arith;
  has = refl;
  size = refl;
}

motor-ctx :
    setting_area_get_reg_ctx image.reg_read image.ctx_at motor_area
    ≡ some (reg_ctx_define 50 motor_regs)
unfolding sample_settings setting_area_get_reg_ctx
motor-ctx = refl

temp-apart : 52 ≢ image.temp
unfolding sample_settings
temp-apart e = ground arith

checks :
    (ud : Option Ptr) (v : World Machine)
    → checks_motor 96 (reg_ctx_define 50 motor_regs).observable (some image.temp) ud v
      ≡ (motor_validate (v.memory image.temp), v)
checks ud v = refl

spares :
    Spares machine_laws (reading_with checks_motor) (reg_ctx_define 50 motor_regs).observable 52
unfolding reg_ctx_define
spares = reading-Spares checks_motor

off_accepted : is_neg (motor_validate (motor_off.memory 52)) ≡ false
unfolding motor_validate
off_accepted = refl

-- The motor is not enabled at speed 0.
reg_set-Accepts_example :
    is_neg (
      motor_validate (
        (settings_reg_set machine
            (reading_with checks_motor)
            image
            true
            (some motor_area)
            (some enabled_reg)
            (1 ∷ 0 ∷ [])
            motor_off).1.memory
          52))
    ≡ false
reg_set-Accepts_example =
    reg_set-Accepts machine_laws (reading_with checks_motor) image motor_area
      (reg_ctx_define 50 motor_regs) enabled_reg 52 96 motor_validate checks temp-apart spares
      (1 ∷ 0 ∷ []) motor_off motor-ctx motor_off-Guards off_accepted

motor-WellFormed : WellFormed motor_area.size (reg_ctx_define 50 motor_regs).regs
unfolding motor_area reg_ctx_define motor_regs validate_reg_area
motor-WellFormed = (validate_reg_area-WellFormed 8 motor_regs (omega arith)).0 refl

motor-AllWhole : AllWhole (reg_ctx_define 50 motor_regs).regs
unfolding reg_ctx_define motor_regs register_type_size
motor-AllWhole = (omega arith, (omega arith, (omega arith, (omega arith, (omega arith, tt)))))

reset_defaults-AllDefault_example :
    let (ret, v) =
      settings_reset_defaults machine
        (reading_with checks_motor)
        image
        true
        (some motor_area)
        motor_off in
    (ret ≡ pos 0)
    × IsReady machine_laws
        (reading_with checks_motor)
        (reg_ctx_define 50 motor_regs).observable
        52
        v
    × AllDefault (reg_ctx_define 50 motor_regs).regs (v.memory 52)
reset_defaults-AllDefault_example =
    reset_defaults-AllDefault machine_laws (reading_with checks_motor) image motor_area
      (reg_ctx_define 50 motor_regs) 52 motor-ctx spares motor_off motor_off-Guards.ready
      motor_off-Guards.limit motor-WellFormed motor-AllWhole motor_off-Guards.size
