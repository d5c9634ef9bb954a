-- ===== src/Routing/Sensors.antt =====
-- sensors.c: two packets of fixed contents in each round of sampling.
use zephyr_io.Prelude.{ℕ, none, some, List, ltb, replicate, if◌then◌else◌}
use zephyr_io.World.{Ptr, World}
use zephyr_io.Kernel.{no_wait, Kernel, Program}
use zephyr_io.Packet.{NetBuf, PacketPool, weave_packet_alloc_with_id, weave_packet_send}
use zephyr_io.Routing.Protocol.{BufData}

-- The two arrays after `init_sensor_data`.
unfoldable pub sensor1_data : List ℕ
sensor1_data = replicate 256 0xa1

unfoldable pub sensor2_data : List ℕ
sensor2_data = replicate 384 0xb2

abbrev pub source_id_sensor1 : ℕ
source_id_sensor1 = 1

abbrev pub source_id_sensor2 : ℕ
source_id_sensor2 = 2

-- k_sem_count_get, k_sem_reset and k_sleep.
pub record Sampling (K : Type 0) : Type 0 where
  pub sem_count_get : Ptr → K → ℕ
  pub sem_reset : Ptr → K → K
  pub sleep : ℕ → K → K

module _ {K : Type 0} (k : Kernel K) (nb : NetBuf K) (bd : BufData K) (p : Program K)
    (sampling : Sampling K) (sampling_sem : Ptr) where
  unfoldable pub sensor_start_sampling : K → K
  sensor_start_sampling s = k.sem_give sampling_sem s

  unfoldable pub sensor_stop_sampling : K → K
  sensor_stop_sampling s = sampling.sem_reset sampling_sem s

  -- One packet with these contents, if there is a buffer.
  unfoldable pub send_sample : PacketPool → Ptr → ℕ → List ℕ → World K → World K
  unfolding weave_packet_alloc_with_id weave_packet_send
  send_sample sensor_pool source id contents w =
      let (buf, s) = weave_packet_alloc_with_id nb (some sensor_pool) id no_wait w.kernel in
      elim buf [
        | none ↦ record w { kernel = s }
        | some b ↦
            (weave_packet_send k nb p (some source) (some b) no_wait
              (record w { kernel = bd.add b contents s })).1
      ]

  -- The body of the loop.
  unfoldable pub sensor_round : PacketPool → Ptr → Ptr → World K → World K
  unfolding send_sample sensor1_data sensor2_data
  sensor_round sensor_pool sensor1_source sensor2_source w =
      let w1 = send_sample sensor_pool sensor1_source source_id_sensor1 sensor1_data w in
      let w2 = send_sample sensor_pool sensor2_source source_id_sensor2 sensor2_data w1 in
      let v = if ltb 0 (sampling.sem_count_get sampling_sem w.kernel) then w2 else w in
      record v { kernel = sampling.sleep 100 v.kernel }
