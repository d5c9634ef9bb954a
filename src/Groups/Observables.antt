-- ===== src/Groups/Observables.antt =====
-- The observables of motor_settings.c and network_settings.c and their handlers, which read the
-- value to print it.
use zephyr_io.Prelude.{Option, none, some}
use zephyr_io.World.{Ptr, World}
use zephyr_io.Kernel.{Kernel, Program}
use zephyr_io.Observable.{weave_observable_get_unchecked}
use zephyr_io.Image.Macros.{ObservableLayout, ObservableStatics, weave_observable_define}

-- The addresses given are those of the observable's parts, of the ops of observables, of the handler,
-- of the group and of the validator. The sizes are those of the structs.
unfoldable motor_settings : ObservableLayout → Ptr → Ptr → Ptr → Ptr → ObservableStatics
unfolding weave_observable_define
motor_settings at_ ops on_changed group validate =
    weave_observable_define at_ ops 10 (some on_changed) none (some group) (some validate)

unfoldable network_settings : ObservableLayout → Ptr → Ptr → Ptr → Ptr → ObservableStatics
unfolding weave_observable_define
network_settings at_ ops on_changed group validate =
    weave_observable_define at_ ops 8 (some on_changed) none (some group) (some validate)

-- `cfg` is the struct on the stack.
module _ {K : Type 0} (k : Kernel K) (p : Program K) (cfg : Ptr) where
  unfoldable pub on_motor_changed : Option Ptr → Option Ptr → World K → World K
  on_motor_changed obs user_data w = (weave_observable_get_unchecked k p obs (some cfg) w).1

  unfoldable on_network_changed : Option Ptr → Option Ptr → World K → World K
  on_network_changed obs user_data w = (weave_observable_get_unchecked k p obs (some cfg) w).1
