-- ===== src/Tests/ImageCases.antt =====
-- A method that its macro lays out, called at the small machine.
use zephyr_io.Prelude.{none, some, ◌==◌, if◌then◌else◌}
use zephyr_io.World.{World}
use zephyr_io.Kernel.{Program}
use zephyr_io.Method.{weave_method_dispatch}
use zephyr_io.Image.Macros.{weave_method_define}
use zephyr_io.Tests.Machine.{Machine, machine, app}

-- Every sink and every method is that of the macro: method 90 with sink 91, which takes a request of
-- 4 bytes and answers WV_VOID.
abbrev typed_base : Program Machine
unfolding weave_method_define
typed_base = record app {
  sink_at = λ s. (weave_method_define 90 91 92 60 none none (some 4) none).sink;
  method_at = λ m. (weave_method_define 90 91 92 60 none none (some 4) none).method;
}

abbrev typed : Program Machine
typed = record typed_base {
  call = λ h ptr ud w. if h == 92 then weave_method_dispatch machine typed_base ptr ud w else w;
}
