-- ===== src/Rpc/Thread.antt =====
-- The thread of the sensor: samples of the timer and the messages of its queue.
use zephyr_io.Prelude.{ℕ, Option, none, some, List, [], ◌∷◌, Bool, if◌then◌else◌}
use mathlib.Core.Option
use zephyr_io.World.{Ptr, World}
use zephyr_io.Kernel.{no_wait, Kernel, Program}
use zephyr_io.Core.{weave_process_messages}
use zephyr_io.Rpc.Sensor.{ReadSensorResponse, SensorState, Clock, read_sensor_handler}

module _ {S : Type 0} (clock : Clock S) (k : Kernel (SensorState S)) (p : Program (SensorState S))
    (data_ready sensor_msgq : Ptr)
    -- k_poll on the semaphore and the queue for 100 ms: which of the two events it reports
    (poll : SensorState S → (Bool × Bool) × SensorState S) where
  -- The callback of the timer.
  unfoldable pub sensor_timer_expired : SensorState S → SensorState S
  sensor_timer_expired st = k.sem_give data_ready st

  -- A sample of the timer: the request and the response are on the stack.
  unfoldable pub auto_sample : ReadSensorResponse → World (SensorState S) → World (SensorState S)
  unfolding read_sensor_handler
  auto_sample res w =
      let (taken, st) = k.sem_take data_ready no_wait w.kernel in
      let (ret, res', st1) =
        read_sensor_handler clock (some (record { channel = 0 })) (some res) st in
      record w { kernel = st1 }

  -- The first half of the body of the loop: whether messages wait, and the world after the sample.
  unfoldable pub poll_and_sample :
      ReadSensorResponse → World (SensorState S) → Bool × World (SensorState S)
  unfolding auto_sample
  poll_and_sample res w =
      let ((sampled, messages), st) = poll w.kernel in
      let w1 = record w { kernel = st } in (messages, if sampled then auto_sample res w1 else w1)

  -- The body of the loop; `none` means that the messages do not end within the fuel.
  unfoldable pub thread_round :
      ℕ → ReadSensorResponse → World (SensorState S) → Option (World (SensorState S))
  unfolding poll_and_sample
  thread_round fuel res w =
      let (messages, w1) = poll_and_sample res w in
      let processed = weave_process_messages k p fuel (some sensor_msgq) no_wait w1 in
      if messages then Option.map (λ done. done.1) processed else some w1

  -- The loop, with the fuel of each round: it ends when `sensor_running` is false at its head.
  unfoldable pub thread_loop :
      List ℕ → ReadSensorResponse → World (SensorState S) → Option (World (SensorState S))
  unfolding thread_round
  thread_loop [] res w = none
  thread_loop (fuel ∷ fuels) res w =
      let rest = Option.bind (thread_round fuel res w) (λ w1. thread_loop fuels res w1) in
      let st = w.kernel in
      let stopped = record w { kernel = record st { rest = clock.timer_stop st.rest } } in
      if st.running then rest else some stopped

  -- The start of the thread: the kernel objects and the timer.
  unfoldable pub thread_start : World (SensorState S) → World (SensorState S)
  thread_start w =
      let st = w.kernel in
      let st1 = k.sem_init data_ready 0 1 (record st { rest = clock.timer_init st.rest }) in
      let rate = st1.ctx.config.sample_rate_ms in
      let st2 = record st1 { rest = clock.timer_start rate rate st1.rest } in
      record w { kernel = if st1.ctx.config.auto_sample then st2 else st1 }
