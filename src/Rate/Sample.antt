-- ===== src/Rate/Sample.antt =====
-- settings.c and sensor_module.c: the commands, the start, the observer and the round of the thread.
use zephyr_io.Prelude.{
  ℕ, ◌+◌, ◌%◌, none, some, List, [], ◌||◌, ℤ, pos, neg, is_zero, is_neg, einval, length, ltb, ◌==◌,
  not, if◌then◌else◌,
}
use zephyr_io.World.{Ptr, World, update}
use zephyr_io.Kernel.{Kernel, Program}
use zephyr_io.Observable.{weave_observable_set_unchecked, weave_observable_get_unchecked}
use zephyr_io.Table.Value.{unsigned}
use zephyr_io.Routing.Protocol.{le_bytes}
use zephyr_io.Shell.Text.{Text, strtoul, decimal}
use zephyr_io.Shell.TableCommands.{arg, reply}
use zephyr_io.Image.Macros.{ObservableLayout, ObservableStatics, weave_observable_define}

-- `struct sensor_settings` is one uint32_t.
abbrev pub settings_size : ℕ
settings_size = 4

-- The observable `sensor_settings`, with no handler and no validator.
unfoldable pub sensor_settings : ObservableLayout → Ptr → ObservableStatics
unfolding weave_observable_define
sensor_settings at_ ops = weave_observable_define at_ ops settings_size none none none none

-- `obs` is the observable, `buf` the struct on the stack of a function.
module _ {K : Type 0} (k : Kernel K) (p : Program K) (obs buf : Ptr) where
  -- A struct with this rate on the stack.
  abbrev pub with_rate : ℕ → World K → World K
  with_rate rate w = record w { memory = update w.memory buf (le_bytes settings_size rate) }

  -- It prints the rate; the number of observers behind it is left out.
  unfoldable pub cmd_settings_set : List Text → World K → ℤ × Text × World K
  cmd_settings_set argv w =
      let rate = strtoul (arg argv 1) 10 in
      let done =
        reply (λ n v. decimal rate)
          (weave_observable_set_unchecked k p (some obs) (some buf) (with_rate rate w)) in
      if not (length argv == 2)
      then (neg einval, [], w)
      else if ltb rate 100 || ltb 10000 rate
      then (neg einval, [], w)
      else done

  unfoldable pub cmd_settings_get : List Text → World K → ℤ × Text × World K
  cmd_settings_get argv w =
      reply (λ n v. decimal (unsigned settings_size (v.memory buf)))
        (weave_observable_get_unchecked k p (some obs) (some buf) w)

  unfoldable pub sensor_settings_init : World K → ℤ × World K
  sensor_settings_init w =
      let (ret, w1) = weave_observable_set_unchecked k p (some obs) (some buf) (with_rate 1000 w) in
      if is_neg ret then (ret, w1) else (pos 0, w1)

  -- The observer, on `current_rate_ms` and `sensor_obs_count`.
  unfoldable pub settings_changed : ℕ × ℕ → World K → (ℕ × ℕ) × World K
  settings_changed (current_rate_ms, sensor_obs_count) w =
      let (ret, w1) = weave_observable_get_unchecked k p (some obs) (some buf) w in
      (
        if is_zero ret
            then (unsigned settings_size (w1.memory buf), sensor_obs_count + 1)
            else (current_rate_ms, sensor_obs_count),
        w1,
      )

-- The next reading of the thread.
unfoldable pub next_reading : ℕ → ℕ
next_reading reading = (reading + 7) % 100
