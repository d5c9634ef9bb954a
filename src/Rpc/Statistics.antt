-- ===== src/Rpc/Statistics.antt =====
-- What the statistics of the sensor say of the values that were measured.
use zephyr_io.Prelude.{
  ℕ, ◌+◌, ◌%◌, ◌^◌, ◌≡◌, ◌≤◌, ◌<◌, ◌⊎◌, inl, inr, refl, ◌∙◌, List, [], ◌∷◌, true, ℤ, pos, negsuc,
  arith, length, ltb, ltz, if◌then◌else◌, Bool-cases,
}
use zephyr_io.Rpc.Sensor.{GetStatsResponse, int32_max, count_value, count_threshold}

-- A value, and the threshold at the time.
pub record Reading : Type 0 where
  pub value : ℕ
  pub threshold : ℤ

abbrev exceeds : Reading → ℕ
exceeds r = if ltz r.threshold (pos r.value) then 1 else 0

abbrev pub exceeding : List Reading → ℕ
exceeding [] = 0
exceeding (r ∷ rs) = exceeds r + exceeding rs

abbrev pub Occurs : ℕ → List Reading → Type 0
Occurs n [] = ⊥
Occurs n (r ∷ rs) = (r.value ≡ n) ⊎ Occurs n rs

abbrev pub AllAbove : ℕ → List Reading → Type 0
AllAbove n [] = Unit
AllAbove n (r ∷ rs) = (n ≤ r.value) × AllAbove n rs

abbrev pub AllBelow : ℕ → List Reading → Type 0
AllBelow n [] = Unit
AllBelow n (r ∷ rs) = (r.value ≤ n) × AllBelow n rs

-- The least and the greatest of the values; with no value, the limits of int32_t the other way
-- round.
abbrev pub IsLeast : ℤ → List Reading → Type 0
IsLeast m [] = m ≡ pos int32_max
IsLeast m (r ∷ rs) = (n : ℕ) × (m ≡ pos n) × Occurs n (r ∷ rs) × AllAbove n (r ∷ rs)

abbrev pub IsGreatest : ℤ → List Reading → Type 0
IsGreatest m [] = m ≡ negsuc int32_max
IsGreatest m (r ∷ rs) = (n : ℕ) × (m ≡ pos n) × Occurs n (r ∷ rs) × AllBelow n (r ∷ rs)

-- The statistics of these values, the last one first; the counters have 32 bits.
pub record Summarises (rs : List Reading) (stats : GetStatsResponse) : Type 0 where
  pub total : stats.total_reads ≡ length rs % 2 ^ 32
  pub events : stats.threshold_events ≡ exceeding rs % 2 ^ 32
  pub least : IsLeast stats.min_value rs
  pub greatest : IsGreatest stats.max_value rs

AllAbove-le : {n m : ℕ} (rs : List Reading) → m ≤ n → AllAbove n rs → AllAbove m rs
AllAbove-le [] h all = tt
AllAbove-le (r ∷ rs) h (le, all) = (omega arith, AllAbove-le rs h all)

AllBelow-le : {n m : ℕ} (rs : List Reading) → n ≤ m → AllBelow n rs → AllBelow m rs
AllBelow-le [] h all = tt
AllBelow-le (r ∷ rs) h (le, all) = (omega arith, AllBelow-le rs h all)

IsLeast-step :
    (r : Reading) (rs : List Reading) (m : ℤ)
    → r.value < int32_max
    → IsLeast m rs
    → IsLeast (if ltz (pos r.value) m then pos r.value else m) (r ∷ rs)
IsLeast-step r [] m lt e = rw (e, lt→true) (r.value, refl, inl refl, (omega arith, tt))
  where
    lt→true : ltb r.value int32_max ≡ true
    lt→true = ground arith
IsLeast-step r (q ∷ rs) m lt (n, e, occurs, all) = rw e (elim (Bool-cases (ltb r.value n)) [
  | inl h ↦ rw h (r.value, refl, inl refl, (omega arith, AllAbove-le (q ∷ rs) (ground arith) all))
  | inr h ↦ rw h (n, refl, inr occurs, ((ground arith), all))
])

IsGreatest-step :
    (r : Reading) (rs : List Reading) (m : ℤ)
    → IsGreatest m rs
    → IsGreatest (if ltz m (pos r.value) then pos r.value else m) (r ∷ rs)
IsGreatest-step r [] m e = rw e (r.value, refl, inl refl, (omega arith, tt))
IsGreatest-step r (q ∷ rs) m (n, e, occurs, all) = rw e (elim (Bool-cases (ltb n r.value)) [
  | inl h ↦ rw h (r.value, refl, inl refl, (omega arith, AllBelow-le (q ∷ rs) (ground arith) all))
  | inr h ↦ rw h (n, refl, inr occurs, ((ground arith), all))
])

events-step :
    (r : Reading) (rs : List Reading) (stats : GetStatsResponse)
    → stats.threshold_events ≡ exceeding rs % 2 ^ 32
    → (count_threshold (pos r.value) r.threshold stats).threshold_events
      ≡ exceeding (r ∷ rs) % 2 ^ 32
unfolding count_threshold
events-step r rs stats h = elim (Bool-cases (ltz r.threshold (pos r.value))) [
  | inl e ↦ rw e (omega arith)
  | inr e ↦ rw e (omega arith)
]

count_threshold-rest :
    (v t : ℤ) (stats : GetStatsResponse)
    → ((count_threshold v t stats).total_reads ≡ stats.total_reads)
      × ((count_threshold v t stats).min_value ≡ stats.min_value)
      × ((count_threshold v t stats).max_value ≡ stats.max_value)
unfolding count_threshold
count_threshold-rest v t stats = elim (Bool-cases (ltz t v)) [
  | inl e ↦ rw e (refl, refl, refl)
  | inr e ↦ rw e (refl, refl, refl)
]

-- One more value in the statistics.
pub count-Summarises :
    (r : Reading) (rs : List Reading) (stats : GetStatsResponse)
    → r.value < int32_max
    → Summarises rs stats
    → Summarises
        (r ∷ rs)
        (count_threshold (pos r.value) r.threshold (count_value (pos r.value) stats))
unfolding count_value
count-Summarises r rs stats lt s =
    let (total, least, greatest) =
      count_threshold-rest (pos r.value) r.threshold (count_value (pos r.value) stats) in
    record {
      total = total ∙ omega (arith, s.total);
      events = events-step r rs (count_value (pos r.value) stats) s.events;
      least = rw least (IsLeast-step r rs stats.min_value lt s.least);
      greatest = rw greatest (IsGreatest-step r rs stats.max_value s.greatest);
    }
