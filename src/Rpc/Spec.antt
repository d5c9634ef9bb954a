-- ===== src/Rpc/Spec.antt =====
-- The sensor as a list of measured values: what a run of its methods promises, and that the
-- handlers keep the promise.
use zephyr_io.Prelude.{
  ℕ, ◌/◌, ◌%◌, ◌≡◌, ◌<◌, refl, Option, none, some, List, [], ◌∷◌, ℤ, pos, neg, einval, arith,
}
use zephyr_io.Rpc.Sensor.{
  ReadSensorRequest, ReadSensorResponse, SetConfigRequest, GetStatsResponse, SensorState, Clock,
  record_value, read_sensor_handler, set_config_handler, get_stats_handler,
}
use zephyr_io.Rpc.Statistics.{Reading, Summarises, count-Summarises}

-- A call of a method with what its two pointers point to, and the answer to it.
pub data Request : Type 0 where
  read_sensor : Option ReadSensorRequest → Option ReadSensorResponse → Request
  set_config : Option SetConfigRequest → Request
  get_stats : Option GetStatsResponse → Request

pub data Answer : Type 0 where
  of_read : ℤ → Option ReadSensorResponse → Answer
  of_set : ℤ → Answer
  of_stats : ℤ → Option GetStatsResponse → Answer

module _ {S : Type 0} (clock : Clock S) where
  -- The handler that the method's definition names.
  unfoldable pub handle : Request → SensorState S → Answer × SensorState S
  unfolding read_sensor_handler set_config_handler get_stats_handler
  handle (read_sensor request res) st =
      let (ret, res', st') = read_sensor_handler clock request res st in (of_read ret res', st')
  handle (set_config request) st =
      let (ret, st') = set_config_handler clock request st in (of_set ret, st')
  handle (get_stats res) st =
      let (ret, res', st') = get_stats_handler clock res st in (of_stats ret res', st')

  unfoldable pub handle_requests :
      List Request → SensorState S → List (Request × Answer) × SensorState S
  unfolding handle
  handle_requests [] st = ([], st)
  handle_requests (r ∷ rs) st =
      let (answer, st1) = handle r st in
      let (answers, st2) = handle_requests rs st1 in ((r, answer) ∷ answers, st2)

-- The abstract sensor: every value so far with the threshold of its time, the last one first.
pub record History : Type 0 where
  pub readings : List Reading
  pub config : SetConfigRequest

abbrev pub reading : ℕ → History → Reading
reading value h = record { value = value; threshold = h.config.threshold }

abbrev pub measured : ℕ → History → History
measured value h = record h { readings = reading value h ∷ h.readings }

-- One answered call. A measurement is any value below 200.
pub data Promised : Request → History → Answer → History → Type 0 where
  measures :
      (request : ReadSensorRequest) (h : History) (value : ℕ)
      → value < 200
      → Promised (read_sensor (some request) none) h (of_read (pos 0) none) (measured value h)
  measures_into :
      (request : ReadSensorRequest) (res : ReadSensorResponse) (h : History) (value now : ℕ)
      → value < 200
      → Promised
          (read_sensor (some request) (some res))
          h
          (of_read (pos 0) (some (record { value = pos value; timestamp = now })))
          (measured value h)
  refuses_read :
      (res : Option ReadSensorResponse) (h : History)
      → Promised (read_sensor none res) h (of_read (neg einval) res) h
  configures :
      (request : SetConfigRequest) (h : History)
      → Promised (set_config (some request)) h (of_set (pos 0)) (record h { config = request })
  refuses_config : (h : History) → Promised (set_config none) h (of_set (neg einval)) h
  tells :
      (res stats : GetStatsResponse) (h : History)
      → Summarises h.readings stats
      → Promised (get_stats (some res)) h (of_stats (pos 0) (some stats)) h
  tells_nobody : (h : History) → Promised (get_stats none) h (of_stats (pos 0) none) h

-- A run of calls.
pub data Run : List (Request × Answer) → History → History → Type 0 where
  ends : (h : History) → Run [] h h
  goes_on :
      (r : Request) (a : Answer) (answered : List (Request × Answer)) (h h1 h2 : History)
      → Promised r h a h1
      → Run answered h1 h2
      → Run ((r, a) ∷ answered) h h2

-- The state that the handlers keep stands for a history.
pub record Refines {S : Type 0} (h : History) (st : SensorState S) : Type 0 where
  pub same_config : st.ctx.config ≡ h.config
  pub summary : Summarises h.readings st.ctx.stats

module _ {S : Type 0} (clock : Clock S) where
  recorded-Refines :
      (h : History) (st : SensorState S) (value : ℕ) (s : S)
      → value < 200
      → Refines h st
      → Refines (measured value h) (record st { ctx = record_value (pos value) st.ctx; rest = s })
  unfolding record_value
  recorded-Refines h st value s lt r = record {
    same_config = r.same_config;
    summary =
        rw r.same_config
          (count-Summarises (reading value h) h.readings st.ctx.stats (omega arith) r.summary);
  }

  handle-Promised :
      (r : Request) (h : History) (st : SensorState S)
      → Refines h st
      → (h' : History) × Promised r h (handle clock r st).0 h' × Refines h' (handle clock r st).1
  unfolding handle
  handle-Promised (read_sensor none res) h st r = (h, refuses_read res h, r)
  handle-Promised (read_sensor (some request) none) h st r =
      let now = (clock.uptime_get_32 st.rest).0 in
      let lt : (now / 100) % 200 < 200 = omega arith in
      (
        measured ((now / 100) % 200) h,
        measures request h ((now / 100) % 200) lt,
        recorded-Refines h st ((now / 100) % 200) _ lt r,
      )
  handle-Promised (read_sensor (some request) (some res)) h st r =
      let now = (clock.uptime_get_32 st.rest).0 in
      let lt : (now / 100) % 200 < 200 = omega arith in
      (
        measured ((now / 100) % 200) h,
        measures_into request res h ((now / 100) % 200) _ lt,
        recorded-Refines h st ((now / 100) % 200) _ lt r,
      )
  handle-Promised (set_config none) h st r = (h, refuses_config h, r)
  handle-Promised (set_config (some request)) h st r = (
    record h { config = request },
    configures request h,
    record { same_config = refl; summary = r.summary },
  )
  handle-Promised (get_stats none) h st r = (h, tells_nobody h, r)
  handle-Promised (get_stats (some res)) h st r = (h, tells res st.ctx.stats h r.summary, r)

  -- The handlers refine the abstract sensor: from a state that stands for a history, any calls are
  -- answered as the abstract sensor may answer them, and the state after them stands for the
  -- history after them. In particular, get_stats returns the number of the values in the history
  -- and of those above their threshold, modulo 2^32, and the least and the greatest of them.
  pub handle_requests-Refines :
      (rs : List Request) (h : History) (st : SensorState S)
      → Refines h st
      → let (answers, st') = handle_requests clock rs st in
        (h' : History) × Run answers h h' × Refines h' st'
  unfolding handle_requests
  handle_requests-Refines [] h st r = (h, ends h, r)
  handle_requests-Refines (q ∷ rs) h st r =
      let (h1, promised, r1) = handle-Promised q h st r in
      let (h2, run, r2) = handle_requests-Refines rs h1 (handle clock q st).1 r1 in
      (h2, goes_on q _ _ h h1 h2 promised run, r2)
