-- ===== src/Tests/MethodCases.antt =====
-- The theorems on src/method.c at the small machine.
use zephyr_io.Prelude.{◌≡◌, refl, Option, none, some, pos, neg, eagain, arith, ◌==◌, if◌then◌else◌}
use zephyr_io.World.{Ptr, World}
use zephyr_io.Kernel.{no_wait, forever, Program}
use zephyr_io.Method.{weave_method_call_async, weave_method_dispatch, weave_method_wait}
use zephyr_io.Method.Immediate.{IsDefined}
use zephyr_io.Method.Answer.{Answered, call_async-Answered}
use zephyr_io.Tests.Machine.{Machine, machine, machine_laws, app, start}

-- Method 90 is immediate, method 93 goes through queue 20; both want 4 bytes and return 3.
abbrev base : Program Machine
base = record app {
  sink_at = λ s.
      if s == 91
      then record { handler = some 92; user_data = some 90; queue = none }
      else record { handler = some 92; user_data = some 93; queue = some 20 };
  method_at = λ m. record {
    sink = if m == 90 then 91 else 94;
    handler = 60;
    user_data = none;
    request_size = 4;
    response_size = 0;
  };
}

abbrev rpc : Program Machine
rpc = record base {
  call = λ h ptr ud w. if h == 92 then weave_method_dispatch machine base ptr ud w else w;
}

rpc-dispatches :
    (ptr ud : Option Ptr) (w : World Machine)
    → rpc.call 92 ptr ud w ≡ weave_method_dispatch machine rpc ptr ud w
unfolding weave_method_dispatch
rpc-dispatches none ud w = refl
rpc-dispatches (some c) none w = refl
rpc-dispatches (some c) (some m) w = refl

rpc_now : IsDefined machine rpc 90 92
rpc_now = record { handler = refl; user_data = refl; dispatches = rpc-dispatches }

rpc_queued : IsDefined machine rpc 93 92
rpc_queued = record { handler = refl; user_data = refl; dispatches = rpc-dispatches }

call_async-Answered_example :
    let (ret, w2) =
      weave_method_call_async machine rpc (some 93) (some 55) 4 none 0 (some 71) start in
    (ret ≡ pos 0)
    × ((weave_method_wait machine (some 71) no_wait w2).0 ≡ neg eagain)
    × Answered machine_laws rpc_queued 71 70 20 refl (some 55) none 5 forever w2
call_async-Answered_example =
    call_async-Answered machine_laws rpc_queued 71 70 20 refl (λ v h. h) (some 55) none 4 0 5
      forever start (omega arith) (omega arith) refl refl (omega arith)
