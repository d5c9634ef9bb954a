-- ===== src/Slab/Demo.antt =====
-- The messages, the slab and the loop that sends readings.
use zephyr_io.Prelude.{
  ℕ, zero, suc, ◌+◌, ◌*◌, ◌%◌, ◌^◌, Option, none, some, List, ◌++◌, ℤ, is_neg, drop, if◌then◌else◌,
}
use zephyr_io.World.{Ptr, PayloadOps, World, update}
use zephyr_io.Kernel.{Timeout, no_wait, ticks, Kernel, Program}
use zephyr_io.Core.{weave_source_emit}
use zephyr_io.Routing.Protocol.{le_bytes}

-- k_mem_slab_alloc (`none` is an error) and k_mem_slab_free on `sensor_slab`, k_uptime_get_32 and
-- k_msleep, during which others run.
pub record SlabServices (K : Type 0) : Type 0 where
  pub mem_slab_alloc : Timeout → K → Option Ptr × K
  pub mem_slab_free : Ptr → K → K
  pub uptime_get_32 : K → ℕ × K
  pub msleep : ℕ → K → K

-- `struct sensor_msg`; the temperature as the bit pattern of an int16_t.
pub record SensorMsg : Type 0 where
  pub temperature : ℕ
  pub humidity : ℕ
  pub sequence : ℕ
  pub timestamp : ℕ

abbrev sensor_msg_size : ℕ
sensor_msg_size = 12

unfoldable pub msg_bytes : SensorMsg → List ℕ
unfolding le_bytes
msg_bytes m =
    le_bytes 2 m.temperature
    ++ le_bytes 2 m.humidity
    ++ le_bytes 4 m.sequence
    ++ le_bytes 4 m.timestamp

-- The ops that SLAB_SOURCE_DEFINE lays out: `unref` is the address of the function that it defines.
abbrev pub slab_ops : Ptr → PayloadOps
slab_ops unref = record { ref = none; unref = some unref }

module _ {K : Type 0} (slab : SlabServices K) where
  -- `_name##_unref`
  unfoldable pub slab_unref : Ptr → World K → World K
  slab_unref ptr w = record w { kernel = slab.mem_slab_free ptr w.kernel }

module _ {K : Type 0} (k : Kernel K) (p : Program K) (slab : SlabServices K)
    (sensor_source : Ptr) where
  unfoldable pub sensor_msg_alloc : Timeout → World K → Option Ptr × World K
  sensor_msg_alloc timeout w =
      let (block, s) = slab.mem_slab_alloc timeout w.kernel in (block, record w { kernel = s })

  -- The i-th message is written to its block.
  unfoldable pub fill_msg : Ptr → ℕ → ℕ → World K → World K
  unfolding msg_bytes
  fill_msg msg i seq w =
      let (now, s) = slab.uptime_get_32 w.kernel in
      let m : SensorMsg = record {
        temperature = 2350 + i * 10;
        humidity = 4500 + i * 100;
        sequence = seq;
        timestamp = now;
      } in
      record w {
        kernel = s;
        memory = update w.memory msg (msg_bytes m ++ drop sensor_msg_size (w.memory msg));
      }

  -- The block goes back if the emission failed; then a sleep.
  unfoldable pub after_emit : Ptr → ℤ → World K → World K
  after_emit msg ret w =
      let freed = record w { kernel = slab.mem_slab_free msg w.kernel } in
      let w1 = if is_neg ret then freed else w in record w1 { kernel = slab.msleep 100 w1.kernel }

  -- A reading behind its allocation.
  unfoldable pub send_reading : Ptr → ℕ → ℕ → World K → World K
  unfolding fill_msg after_emit
  send_reading msg i seq w =
      let (ret, w1) =
        weave_source_emit k p (some sensor_source) (some msg) no_wait (fill_msg msg i seq w) in
      after_emit msg ret w1

  -- The rounds from the i-th; the static `seq` goes along.
  unfoldable pub readings_from : ℕ → ℕ → ℕ → World K → ℕ × World K
  unfolding sensor_msg_alloc send_reading
  readings_from zero i seq w = (seq, w)
  readings_from (suc rounds) i seq w =
      let (block, w1) = sensor_msg_alloc (ticks 100) w in
      elim block [
        | none ↦ readings_from rounds (i + 1) seq w1
        | some msg ↦ readings_from rounds (i + 1) ((seq + 1) % 2 ^ 32) (send_reading msg i seq w1)
      ]

  unfoldable pub simulate_sensor_readings : ℕ → World K → ℕ × World K
  unfolding readings_from
  simulate_sensor_readings seq w = readings_from 5 0 seq w
