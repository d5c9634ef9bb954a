-- ===== src/Rpc/Sensor.antt =====
-- The state of the sensor and the handlers of its three methods.
use zephyr_io.Prelude.{
  ℕ, ◌+◌, ◌-◌, ◌/◌, ◌%◌, ◌^◌, Option, none, some, Bool, true, ℤ, pos, negsuc, neg, einval, ltz,
  if◌then◌else◌,
}

-- The structs of sensor_module.h.
pub record ReadSensorRequest : Type 0 where
  pub channel : ℕ

pub record ReadSensorResponse : Type 0 where
  pub value : ℤ
  pub timestamp : ℕ

pub record SetConfigRequest : Type 0 where
  pub sample_rate_ms : ℕ
  pub threshold : ℤ
  pub auto_sample : Bool

pub record GetStatsResponse : Type 0 where
  pub total_reads : ℕ
  pub threshold_events : ℕ
  pub min_value : ℤ
  pub max_value : ℤ

-- `struct sensor_context`, without its timer and its semaphore, which are kernel objects.
pub record SensorContext : Type 0 where
  pub config : SetConfigRequest
  pub stats : GetStatsResponse
  pub last_value : ℤ

abbrev pub int32_max : ℕ
int32_max = 2 ^ 31 - 1

-- The static initializer of `sensor_ctx`.
unfoldable pub sensor_ctx : SensorContext
sensor_ctx = record {
  config = record { sample_rate_ms = 1000; threshold = pos 100; auto_sample = true };
  stats = record {
    total_reads = 0;
    threshold_events = 0;
    min_value = pos int32_max;
    max_value = negsuc int32_max;
  };
  last_value = pos 0;
}

-- The statics of the module beside the state of the kernel.
pub record SensorState (S : Type 0) : Type 0 where
  pub ctx : SensorContext
  pub running : Bool
  pub rest : S

-- k_uptime_get_32 (time passes between calls) and the calls on `sample_timer`; a start has the
-- duration and the period in milliseconds.
pub record Clock (S : Type 0) : Type 0 where
  pub uptime_get_32 : S → ℕ × S
  pub timer_init : S → S
  pub timer_start : ℕ → ℕ → S → S
  pub timer_stop : S → S

-- `n++` on uint32_t
abbrev pub increment_u32 : ℕ → ℕ
increment_u32 n = (n + 1) % 2 ^ 32

-- The statistics after a value, before the look at the threshold.
unfoldable pub count_value : ℤ → GetStatsResponse → GetStatsResponse
count_value value stats = record stats {
  total_reads = increment_u32 stats.total_reads;
  min_value = if ltz value stats.min_value then value else stats.min_value;
  max_value = if ltz stats.max_value value then value else stats.max_value;
}

unfoldable pub count_threshold : ℤ → ℤ → GetStatsResponse → GetStatsResponse
count_threshold value threshold stats =
    if ltz threshold value
    then record stats { threshold_events = increment_u32 stats.threshold_events }
    else stats

unfoldable pub record_value : ℤ → SensorContext → SensorContext
unfolding count_value count_threshold
record_value value ctx = record ctx {
  stats = count_threshold value ctx.config.threshold (count_value value ctx.stats);
  last_value = value;
}

module _ {S : Type 0} (clock : Clock S) where
  -- The simulated measurement.
  unfoldable pub measure : S → ℤ × S
  measure s = let (now, s1) = clock.uptime_get_32 s in (pos ((now / 100) % 200), s1)

  -- `*res` when `res` is not NULL: the clock is read again.
  unfoldable pub fill_response : ℤ → Option ReadSensorResponse → S → Option ReadSensorResponse × S
  fill_response value none s = (none, s)
  fill_response value (some res) s =
      let (now, s1) = clock.uptime_get_32 s in
      (some (record { value = value; timestamp = now }), s1)

  -- A handler has the request and the contents of the response buffer, each none for NULL, and
  -- returns its result, the contents and the state.
  unfoldable pub read_sensor_handler :
      Option ReadSensorRequest
      → Option ReadSensorResponse
      → SensorState S
      → ℤ × Option ReadSensorResponse × SensorState S
  unfolding measure fill_response record_value
  read_sensor_handler none res st = (neg einval, res, st)
  read_sensor_handler (some request) res st =
      let (value, s1) = measure st.rest in
      let (res', s2) = fill_response value res s1 in
      (pos 0, res', record st { ctx = record_value value st.ctx; rest = s2 })

  -- The timer follows the configuration.
  unfoldable pub update_timer : SetConfigRequest → S → S
  update_timer config s =
      if config.auto_sample
      then clock.timer_start config.sample_rate_ms config.sample_rate_ms s
      else clock.timer_stop s

  unfoldable pub set_config_handler : Option SetConfigRequest → SensorState S → ℤ × SensorState S
  unfolding update_timer
  set_config_handler none st = (neg einval, st)
  set_config_handler (some request) st = (
    pos 0,
    record st { ctx = record (st.ctx) { config = request }; rest = update_timer request st.rest },
  )

  unfoldable pub get_stats_handler :
      Option GetStatsResponse → SensorState S → ℤ × Option GetStatsResponse × SensorState S
  get_stats_handler none st = (pos 0, none, st)
  get_stats_handler (some res) st = (pos 0, some st.ctx.stats, st)

unfoldable pub sensor_stop : {S : Type 0} → SensorState S → SensorState S
sensor_stop st = record st { running = Bool.false }
