-- ===== src/Tests/RpcCases.antt =====
-- The theorems on samples/sensor_rpc/src at the small machine, with the statics of the sensor in
-- the state that its services act on.
use zephyr_io.Prelude.{
  ℕ, ◌+◌, ◌≡◌, refl, Option, none, some, List, [], ◌∷◌, ◌++◌, Bool, true, false, pos, neg, arith,
}
use zephyr_io.World.{Ptr, World}
use zephyr_io.Kernel.{Timeout, Kernel, Program, Lawful}
use zephyr_io.Core.Log.{Logged}
use zephyr_io.Rpc.Sensor.{SensorState, Clock, sensor_ctx}
use zephyr_io.Rpc.Spec.{
  Request, History, Refines, Run, read_sensor, set_config, get_stats, handle_requests,
  handle_requests-Refines,
}
use zephyr_io.Tests.Machine.{Machine, machine, machine_laws, app, start, put, get_from-rest}

-- The clock moves 12345 ms with each reading.
abbrev ticking : Clock ℕ
ticking = record {
  uptime_get_32 = λ s. (s, s + 12345);
  timer_init = λ s. s;
  timer_start = λ d q s. s;
  timer_stop = λ s. s;
}

abbrev booted : SensorState ℕ
unfolding sensor_ctx
booted = record { ctx = sensor_ctx; running = true; rest = 17000 }

abbrev at_boot : History
at_boot = record { readings = []; config = booted.ctx.config }

booted-Refines : Refines at_boot booted
unfolding sensor_ctx
booted-Refines = record {
  same_config = refl;
  summary = record { total = refl; events = refl; least = refl; greatest = refl };
}

abbrev requests : List Request
requests =
    read_sensor (some (record { channel = 1 })) none
    ∷ set_config (some (record { sample_rate_ms = 500; threshold = neg 70; auto_sample = false }))
    ∷ read_sensor (some (record { channel = 2 })) (some (record { value = pos 0; timestamp = 0 }))
    ∷ read_sensor none none
    ∷ get_stats (some (booted.ctx.stats))
    ∷ []

-- The values 170 and 93 were read, both above their thresholds.
counts_both :
    (handle_requests ticking requests booted).1.ctx.stats
    ≡ record { total_reads = 2; threshold_events = 2; min_value = pos 93; max_value = pos 170 }
unfolding handle_requests sensor_ctx
counts_both = refl

handle_requests-Refines_example :
    let (answers, st') = handle_requests ticking requests booted in
    (h' : History) × Run answers at_boot h' × Refines h' st'
handle_requests-Refines_example =
    handle_requests-Refines ticking requests at_boot booted booted-Refines

-- The small machine beside the statics.
abbrev State : Type 0
State = SensorState Machine

abbrev beside : {A : Type 0} → (Machine → A × Machine) → State → A × State
beside f st = let (a, s) = f st.rest in (a, record st { rest = s })

abbrev sensing : Kernel State
sensing = record {
  msgq_put = λ q e t. beside (machine.msgq_put q e t);
  msgq_get = λ q t. beside (machine.msgq_get q t);
  sem_init = λ sem n m st. record st { rest = machine.sem_init sem n m st.rest };
  sem_take = λ sem t. beside (machine.sem_take sem t);
  sem_give = λ sem st. record st { rest = machine.sem_give sem st.rest };
  timepoint_calc = λ t st. machine.timepoint_calc t st.rest;
  timepoint_timeout = λ n st. machine.timepoint_timeout n st.rest;
  slist_append = machine.slist_append;
}

abbrev sensing_laws : Lawful sensing
sensing_laws = record {
  view = λ st. st.rest.view;
  put_ok = λ q e t st. machine_laws.put_ok q e t st.rest;
  put_err = λ q e t st. machine_laws.put_err q e t st.rest;
  put_room = λ q e t st. machine_laws.put_room q e t st.rest;
  put_full = λ q e st. machine_laws.put_full q e st.rest;
  get_head = λ q t st. machine_laws.get_head q t st.rest;
  get_empty = λ q st. machine_laws.get_empty q st.rest;
  sem_init_count = λ sem n m st. refl;
  take_ready = λ sem t st. machine_laws.take_ready sem t st.rest;
  take_busy = λ sem st. machine_laws.take_busy sem st.rest;
  give_count = λ sem st. refl;
  no_wait_stays = λ st st'. refl;
  forever_stays = λ st st'. refl;
  append_last = λ cs c. refl;
}

abbrev logs : Ptr → Option Ptr → World State → World State
logs h ptr w =
    let st = w.kernel in
    record w {
      kernel = record st { rest = record (st.rest) { log = st.rest.log ++ (h, ptr) ∷ [] } };
    }

abbrev sensor_app : Program State
sensor_app = record {
  sink_at = app.sink_at;
  ops_at = λ o. record { ref = none; unref = none };
  method_at = app.method_at;
  connections = [];
  call = λ h ptr ud w. logs h ptr w;
  call_ref = λ f x s w. (pos 0, w);
  call_unref = λ g x w. w;
  call_method = λ h req res ud w. (pos 0, w);
  call_validator = λ v obs value ud w. (pos 0, w);
}

sensor_app-Logged : Logged sensing_laws sensor_app 20 (λ w. w.kernel.rest.log)
sensor_app-Logged = record {
  log-call = λ h ptr ud w. refl;
  log-ref = λ f x s w. refl;
  log-unref = λ g ptr w. refl;
  log-put = λ r e t w. ground arith;
  log-get = λ r t w. (get_from-rest (w.kernel.rest.view.queued r) r t w.kernel.rest).1;
  call_keeps = λ h ptr ud w. refl;
  unref_keeps = λ g ptr w. refl;
}

abbrev stopped_clock : Clock Machine
stopped_clock = record {
  uptime_get_32 = λ s. (15000, s);
  timer_init = λ s. s;
  timer_start = λ d q s. s;
  timer_stop = λ s. s;
}

-- One message for sink 2 waits in queue 20.
abbrev two_due : World State
unfolding sensor_ctx
two_due = record {
  kernel = record {
    ctx = sensor_ctx;
    running = true;
    rest =
        (put 20 (record { sink = some 2; ptr = some 8; ops = none }) Timeout.no_wait
          start.kernel).1;
  };
  sources = start.sources;
  observables = start.observables;
  contexts = start.contexts;
  memory = start.memory;
}

abbrev both : State → (Bool × Bool) × State
both st = ((true, true), st)
