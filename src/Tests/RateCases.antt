-- ===== src/Tests/RateCases.antt =====
-- The theorem on samples/observable/src at the small machine, where the observable lies at 50.
use zephyr_io.Prelude.{◌≡◌, refl, [], ◌∷◌, pos, neg, einval, inl, arith}
use zephyr_io.World.{World}
use zephyr_io.Image.Macros.{ObservableLayout, weave_observable_define}
use zephyr_io.Image.Boot.{Boots}
use zephyr_io.Shell.Text.{Text, decimal}
use zephyr_io.Rate.Sample.{sensor_settings, cmd_settings_set, cmd_settings_get}
use zephyr_io.Rate.SetGet.{settings_get-settings_set}
use zephyr_io.Tests.Machine.{Machine, machine, machine_laws, start}
use zephyr_io.Tests.ObservableCases.{reading, accepting-Spares}

abbrev layout : ObservableLayout
layout = record { source = 51; sem = 53; owner_sink = 54; value = 52 }

abbrev booted : World Machine
unfolding sensor_settings weave_observable_define
booted = record start { observables = λ a. (sensor_settings layout 40).observable }

booted-Boots : Boots machine_laws reading 50 (sensor_settings layout 40) booted
unfolding booted sensor_settings weave_observable_define
booted-Boots = record { observable_is = refl; count_is = refl; limit_is = refl }

abbrev set_text : Text
set_text = b's' ∷ b'e' ∷ b't' ∷ []

settings_get-settings_set_example :
    let v = (cmd_settings_set machine reading 50 55 (set_text ∷ decimal 250 ∷ []) booted).2 in
    let (ret, printed, v1) =
      cmd_settings_set machine reading 50 55 (set_text ∷ decimal 99 ∷ []) v in
    let (ret2, printed2, v2) = cmd_settings_get machine reading 50 55 [] v1 in
    (ret ≡ neg einval) × (printed ≡ []) × (v1 ≡ v) × (ret2 ≡ pos 0) × (printed2 ≡ decimal 250)
settings_get-settings_set_example =
    settings_get-settings_set machine_laws reading 50 55 40 layout booted booted-Boots
      accepting-Spares set_text [] 250 99 (omega arith) (omega arith) (omega arith)
      (inl (omega arith))
