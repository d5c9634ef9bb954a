-- ===== src/Observable/Store.antt =====
-- `weave_observable_set_unchecked` and `weave_observable_get_unchecked` of src/observable.c: what
-- is stored, what is read, and what a rejected value leaves.
use zephyr_io.Prelude.{
  ◌≡◌, refl, ap, ◌∙◌, ◌<◌, Option, some, true, false, ℤ, pos, neg, is_neg, is_none, einval,
  if◌then◌else◌,
}
use zephyr_io.World.{Ptr, World, memcpy, copy_bytes}
use zephyr_io.Kernel.{forever, Kernel, Program, Lawful}
use zephyr_io.Core.Drain.{update_self}
use zephyr_io.Observable.{
  set_publishing, weave_observable_claim, weave_observable_finish, notify,
  weave_observable_validate, store_into, fetch_from, store_and_publish,
  weave_observable_set_unchecked, weave_observable_get_unchecked,
}
use zephyr_io.Observable.Guard.{
  lock, claimed, claim-free, lock-claimed, limit-claimed, lock-finish, publish-notifies,
}

module _ {K : Type 0} {k : Kernel K} (L : Lawful k) (p : Program K) (obs cell : Ptr) where
  -- An observable that can be set now: it has a buffer, is not publishing, and is not claimed.
  pub record IsReady (w : World K) : Type 0 where
    pub buffer : (w.observables obs).value ≡ some cell
    pub idle : (w.observables obs).publishing ≡ false
    pub free : lock L p obs w ≡ 1

  -- The world in which the handlers of a set run.
  abbrev pub stored : Ptr → World K → World K
  stored value w = weave_observable_finish k (some obs) (
      set_publishing obs true
        (memcpy cell value (w.observables obs).size (claimed L p obs forever w)))

  -- A value that the validator rejects is not stored: the result and the world are the validator's.
  pub set-rejected :
      (value : Ptr) (w : World K)
      → IsReady w
      → is_neg (weave_observable_validate k p (some obs) (some value) w).0 ≡ true
      → weave_observable_set_unchecked k p (some obs) (some value) w
        ≡ weave_observable_validate k p (some obs) (some value) w
  unfolding weave_observable_set_unchecked
  set-rejected value w r bad = rw (r.buffer, r.idle, bad)

  pub store_and_publish-eq :
      (value : Ptr) (w : World K)
      → IsReady w
      → let out = notify k p obs (stored value w) in
        store_and_publish k p obs value w ≡ (out.0, set_publishing obs false out.1)
  unfolding store_and_publish store_into
  store_and_publish-eq value w r =
      ap (λ (c : Option Ptr × World K). store_into k p c.0 obs value c.1)
        (claim-free L p obs forever w 0 r.free)
      ∙ ap (λ c. store_into k p c obs value (claimed L p obs forever w)) r.buffer
      ∙ (publish-notifies k p obs
          (memcpy cell value (w.observables obs).size (claimed L p obs forever w)) r.idle).0

  -- A value that the validator accepts is copied into the observable's buffer before any handler
  -- runs, and the result is that of the notification; at its end the guard is down again.
  pub set-stores :
      (value : Ptr) (w : World K)
      → IsReady w
      → is_neg (weave_observable_validate k p (some obs) (some value) w).0 ≡ false
      → IsReady (weave_observable_validate k p (some obs) (some value) w).1
      → let w1 = (weave_observable_validate k p (some obs) (some value) w).1 in
        let out = notify k p obs (stored value w1) in
        (weave_observable_set_unchecked k p (some obs) (some value) w
          ≡ (out.0, set_publishing obs false out.1))
        × ((stored value w1).memory cell
            ≡ copy_bytes (w1.memory cell) (w1.memory value) (w1.observables obs).size)
  unfolding weave_observable_set_unchecked weave_observable_finish
  set-stores value w r good r1 =
      (rw (r.buffer, r.idle, good) (store_and_publish-eq value w1 r1), update_self w1.memory cell _)
    where
      w1 : World K
      w1 = (weave_observable_validate k p (some obs) (some value) w).1

  pub set-accepted :
      (value : Ptr) (w : World K)
      → IsReady w
      → weave_observable_validate k p (some obs) (some value) w ≡ (pos 0, w)
      → let out = notify k p obs (stored value w) in
        weave_observable_set_unchecked k p (some obs) (some value) w
        ≡ (out.0, set_publishing obs false out.1)
  unfolding weave_observable_set_unchecked
  set-accepted value w r accepts =
      let has : is_none (w.observables obs).value ≡ false = ap is_none r.buffer in
      rw (has, r.idle, accepts) (store_and_publish-eq value w r)

  -- The world in which a get returns.
  abbrev pub fetched : Ptr → World K → World K
  fetched out w =
      weave_observable_finish k (some obs)
        (memcpy out cell (w.observables obs).size (claimed L p obs forever w))

  pub get-eq :
      (out : Ptr) (w : World K)
      → (w.observables obs).value ≡ some cell
      → lock L p obs w ≡ 1
      → weave_observable_get_unchecked k p (some obs) (some out) w ≡ (pos 0, fetched out w)
  unfolding weave_observable_get_unchecked fetch_from
  get-eq out w buffer free =
      ap (λ b. if b then (neg einval, w) else rest) (ap is_none buffer)
      ∙ ap (λ (c : Option Ptr × World K). fetch_from k p c.0 obs out c.1)
          (claim-free L p obs forever w 0 free)
      ∙ ap (λ c. fetch_from k p c obs out (claimed L p obs forever w)) buffer
    where
      rest : ℤ × World K
      rest =
          let (ptr, w') = weave_observable_claim k (some obs) forever w in
          fetch_from k p ptr obs out w'

  -- A get of a free observable returns 0, has copied the value to the caller's buffer, gives the
  -- semaphore back and leaves the observable as it was.
  pub get-reads :
      (out : Ptr) (w : World K)
      → IsReady w
      → 0 < (L.view w.kernel).limit (w.observables obs).sem
      → let (r, w1) = weave_observable_get_unchecked k p (some obs) (some out) w in
        (r ≡ pos 0)
        × (w1.memory out ≡ copy_bytes (w.memory out) (w.memory cell) (w.observables obs).size)
        × (w1.observables obs ≡ w.observables obs)
        × (lock L p obs w1 ≡ 1)
  get-reads out w r limit =
      let v = memcpy out cell (w.observables obs).size (claimed L p obs forever w) in
      rw (get-eq out w r.buffer r.free) (
        refl,
        unfold weave_observable_finish in
            update_self w.memory out
              (copy_bytes (w.memory out) (w.memory cell) (w.observables obs).size),
        unfold weave_observable_finish in refl,
        lock-finish L p obs v (lock-claimed L p obs forever w 0 r.free)
            (rw (limit-claimed L p obs forever w 0 r.free) limit),
      )

  -- What the handlers of a set may not touch for a get to find what it stored: the bytes, the
  -- observable and its semaphore.
  pub record Quiet (w v : World K) : Type 0 where
    pub same_cell : v.memory cell ≡ w.memory cell
    pub same_observable : v.observables obs ≡ w.observables obs
    pub same_count :
        (L.view v.kernel).count (w.observables obs).sem
        ≡ (L.view w.kernel).count (w.observables obs).sem
    pub same_limit :
        (L.view v.kernel).limit (w.observables obs).sem
        ≡ (L.view w.kernel).limit (w.observables obs).sem
