-- ===== src/Observable.antt =====
-- src/observable.c: a value behind a semaphore, with a validator, an owner and observers.
pub mod Guard
pub mod Store
pub mod Notified
pub mod Settled
pub mod RoundTrip
pub mod Notify
use zephyr_io.Prelude.{
  ℕ, Option, none, some, Bool, true, false, ℤ, pos, neg, is_neg, is_zero, is_none, einval, ebusy,
  eagain, if◌then◌else◌, ◌||◌,
}
use zephyr_io.World.{Ptr, Observable, World, update, memcpy}
use zephyr_io.Kernel.{Timeout, no_wait, forever, Kernel, Program}
use zephyr_io.Core.{weave_sink_send, weave_source_emit}

-- `obs->publishing = b`
abbrev pub set_publishing : {K : Type 0} → Ptr → Bool → World K → World K
set_publishing obs b w = record w {
  observables = update w.observables obs (record (w.observables obs) { publishing = b });
}

module _ {K : Type 0} (k : Kernel K) where
  unfoldable pub weave_observable_claim : Option Ptr → Timeout → World K → Option Ptr × World K
  weave_observable_claim none timeout w = (none, w)
  weave_observable_claim (some obs) timeout w =
      let (ret, s) = k.sem_take (w.observables obs).sem timeout w.kernel in
      let w' = record w { kernel = s } in
      if is_zero ret then ((w.observables obs).value, w') else (none, w')

  unfoldable pub weave_observable_finish : Option Ptr → World K → World K
  weave_observable_finish none w = w
  weave_observable_finish (some obs) w = record w {
    kernel = k.sem_give (w.observables obs).sem w.kernel;
  }

module _ {K : Type 0} (k : Kernel K) (p : Program K) where
  -- The owner's handler, if there is one, then the observers.
  unfoldable pub notify_owner : Ptr → World K → World K
  notify_owner obs w =
      let owner = (w.observables obs).owner_sink in
      if is_none (p.sink_at owner).handler
      then w
      else (weave_sink_send k p (some owner) (some obs) none no_wait w).1

  unfoldable pub notify : Ptr → World K → ℤ × World K
  notify obs w =
      let w' = notify_owner obs w in
      weave_source_emit k p (some (w'.observables obs).source) (some obs) no_wait w'

  unfoldable pub weave_observable_publish : Option Ptr → World K → ℤ × World K
  weave_observable_publish none w = (neg einval, w)
  weave_observable_publish (some obs) w =
      let w1 = weave_observable_finish k (some obs) (set_publishing obs true w) in
      let (notified, w2) = notify obs w1 in
      if (w.observables obs).publishing
      then (neg ebusy, w)
      else (notified, set_publishing obs false w2)

  unfoldable pub weave_observable_validate : Option Ptr → Option Ptr → World K → ℤ × World K
  weave_observable_validate none value w = (neg einval, w)
  weave_observable_validate (some obs) value w = elim (w.observables obs).validator [
    | none ↦ (pos 0, w)
    | some v ↦ p.call_validator v obs value (p.sink_at (w.observables obs).owner_sink).user_data w
  ]

  -- The end of `weave_observable_set_unchecked`, after its claim.
  unfoldable pub store_into : Option Ptr → Ptr → Ptr → World K → ℤ × World K
  store_into none obs value w = (neg eagain, w)
  store_into (some cell) obs value w =
      weave_observable_publish (some obs) (memcpy cell value (w.observables obs).size w)

  unfoldable pub store_and_publish : Ptr → Ptr → World K → ℤ × World K
  store_and_publish obs value w =
      let (ptr, w') = weave_observable_claim k (some obs) forever w in store_into ptr obs value w'

  unfoldable pub weave_observable_set_unchecked : Option Ptr → Option Ptr → World K → ℤ × World K
  weave_observable_set_unchecked none value w = (neg einval, w)
  weave_observable_set_unchecked (some obs) none w = (neg einval, w)
  weave_observable_set_unchecked (some obs) (some value) w =
      let (ret, w') = weave_observable_validate (some obs) (some value) w in
      let stored = store_and_publish obs value w' in
      if is_none (w.observables obs).value
      then (neg einval, w)
      else if (w.observables obs).publishing
      then (neg ebusy, w)
      else if is_neg ret
      then (ret, w')
      else stored

  -- The end of `weave_observable_get_unchecked`, after its claim.
  unfoldable pub fetch_from : Option Ptr → Ptr → Ptr → World K → ℤ × World K
  fetch_from none obs value w = (neg eagain, w)
  fetch_from (some cell) obs value w =
      (pos 0, weave_observable_finish k (some obs) (memcpy value cell (w.observables obs).size w))

  unfoldable pub weave_observable_get_unchecked : Option Ptr → Option Ptr → World K → ℤ × World K
  weave_observable_get_unchecked none value w = (neg einval, w)
  weave_observable_get_unchecked (some obs) none w = (neg einval, w)
  weave_observable_get_unchecked (some obs) (some value) w =
      let (ptr, w') = weave_observable_claim k (some obs) forever w in
      if is_none (w.observables obs).value then (neg einval, w) else fetch_from ptr obs value w'
