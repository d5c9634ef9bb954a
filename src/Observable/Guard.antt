-- ===== src/Observable/Guard.antt =====
-- The semaphore and the recursion guard of src/observable.c.
use zephyr_io.Prelude.{
  ℕ, suc, ◌≡◌, refl, sym, ap, ◌∙◌, ◌<◌, inl, inr, none, some, Bool, true, false, neg, is_none,
  ebusy, lt→ltb, Bool-cases,
}
use zephyr_io.World.{Ptr, Observable, World}
use zephyr_io.Kernel.{Timeout, no_wait, Kernel, Program, View, Lawful}
use zephyr_io.Core.Drain.{update_self}
use zephyr_io.Observable.{
  set_publishing, weave_observable_claim, weave_observable_finish, notify, weave_observable_publish,
  weave_observable_set_unchecked,
}

publishing-set :
    {K : Type 0} (obs : Ptr) (b : Bool) (w : World K)
    → ((set_publishing obs b w).observables obs).publishing ≡ b
publishing-set obs b w =
    ap (λ (o : Observable). o.publishing)
      (update_self w.observables obs (record (w.observables obs) { publishing = b }))

module _ {K : Type 0} (k : Kernel K) (p : Program K) where
  publish-busy :
      (obs : Ptr) (w : World K)
      → (w.observables obs).publishing ≡ true
      → weave_observable_publish k p (some obs) w ≡ (neg ebusy, w)
  unfolding weave_observable_publish
  publish-busy obs w busy = rw busy

  -- While an observable publishes, a publish and a set of it (with a value buffer) are refused with
  -- -EBUSY and change nothing: a handler cannot recur through them.
  pub publishing_refuses :
      (obs value : Ptr) (w : World K)
      → (w.observables obs).publishing ≡ true
      → is_none (w.observables obs).value ≡ false
      → (weave_observable_publish k p (some obs) w ≡ (neg ebusy, w))
        × (weave_observable_set_unchecked k p (some obs) (some value) w ≡ (neg ebusy, w))
  unfolding weave_observable_set_unchecked
  publishing_refuses obs value w busy has = (publish-busy obs w busy, rw (has, busy))

  -- Outside a publish, the owner and the observers are notified with the guard up and the semaphore
  -- given back; then the guard is taken down.
  pub publish-notifies :
      (obs : Ptr) (w : World K)
      → (w.observables obs).publishing ≡ false
      → let w1 = weave_observable_finish k (some obs) (set_publishing obs true w) in
        let out = notify k p obs w1 in
        (weave_observable_publish k p (some obs) w ≡ (out.0, set_publishing obs false out.1))
        × ((w1.observables obs).publishing ≡ true)
        × (w1.kernel ≡ k.sem_give (w.observables obs).sem w.kernel)
        × (w1.memory ≡ w.memory)
  unfolding weave_observable_publish weave_observable_finish
  publish-notifies obs w idle =
      let here = update_self w.observables obs (record (w.observables obs) { publishing = true }) in
      (
        rw idle,
        ap (λ (o : Observable). o.publishing) here,
        ap (λ (o : Observable). k.sem_give o.sem w.kernel) here,
        refl,
      )

  -- Whatever the handlers do, the guard is after a publish what it was before.
  pub publish-publishing :
      (obs : Ptr) (w : World K)
      → ((weave_observable_publish k p (some obs) w).1.observables obs).publishing
        ≡ (w.observables obs).publishing
  publish-publishing obs w = elim (Bool-cases (w.observables obs).publishing) [
    | inl busy ↦ rw (publish-busy obs w busy)
    | inr idle ↦ rw (publish-notifies obs w idle).0 (
        publishing-set obs false
          (notify k p obs (weave_observable_finish k (some obs) (set_publishing obs true w))).1
        ∙ sym idle)
  ]

module _ {K : Type 0} {k : Kernel K} (L : Lawful k) (p : Program K) (obs : Ptr) where
  abbrev pub lock : World K → ℕ
  lock w = (L.view w.kernel).count (w.observables obs).sem

  -- The world of a successful claim.
  abbrev pub claimed : Timeout → World K → World K
  claimed t w = record w { kernel = (k.sem_take (w.observables obs).sem t w.kernel).1 }

  pub claim-free :
      (t : Timeout) (w : World K) (n : ℕ)
      → lock w ≡ suc n
      → weave_observable_claim k (some obs) t w ≡ ((w.observables obs).value, claimed t w)
  unfolding weave_observable_claim
  claim-free t w n free = rw ((L.take_ready (w.observables obs).sem t w.kernel n free).0)

  pub lock-claimed : (t : Timeout) (w : World K) (n : ℕ) → lock w ≡ suc n → lock (claimed t w) ≡ n
  lock-claimed t w n free =
      let sem = (w.observables obs).sem in
      ap (λ (v : View). v.count sem) (L.take_ready sem t w.kernel n free).1
      ∙ update_self ((L.view w.kernel).count) sem n

  pub limit-claimed :
      (t : Timeout) (w : World K) (n : ℕ)
      → lock w ≡ suc n
      → (L.view (claimed t w).kernel).limit (w.observables obs).sem
        ≡ (L.view w.kernel).limit (w.observables obs).sem
  limit-claimed t w n free =
      ap (λ (v : View). v.limit (w.observables obs).sem)
        (L.take_ready (w.observables obs).sem t w.kernel n free).1

  claim-busy : (w : World K) → lock w ≡ 0 → (weave_observable_claim k (some obs) no_wait w).0 ≡ none
  unfolding weave_observable_claim
  claim-busy w busy = rw ((L.take_busy (w.observables obs).sem w.kernel busy).0)

  pub lock-finish :
      (w : World K)
      → lock w ≡ 0
      → 0 < (L.view w.kernel).limit (w.observables obs).sem
      → lock (weave_observable_finish k (some obs) w) ≡ 1
  unfolding weave_observable_finish
  lock-finish w busy limit =
      let sem = (w.observables obs).sem in
      ap (λ (v : View). v.count sem) (L.give_count sem w.kernel)
      ∙ update_self ((L.view w.kernel).count) sem _
      ∙ rw busy (rw (lt→ltb _ _ limit))

  pub limit-finish :
      (w : World K) (s : Ptr)
      → (L.view (weave_observable_finish k (some obs) w).kernel).limit s ≡ (L.view w.kernel).limit s
  unfolding weave_observable_finish
  limit-finish w s = ap (λ (v : View). v.limit s) (L.give_count (w.observables obs).sem w.kernel)

  -- Exclusive access: after a claim of a free observable whose semaphore was at 1, another claim that
  -- does not wait gets nothing; `finish` then frees it again.
  pub claim-excludes :
      (t : Timeout) (w : World K)
      → lock w ≡ 1
      → 0 < (L.view w.kernel).limit (w.observables obs).sem
      → let (ptr, w1) = weave_observable_claim k (some obs) t w in
        (ptr ≡ (w.observables obs).value)
        × ((weave_observable_claim k (some obs) no_wait w1).0 ≡ none)
        × (lock (weave_observable_finish k (some obs) w1) ≡ 1)
  claim-excludes t w free limit =
      let taken = lock-claimed t w 0 free in
      rw (claim-free t w 0 free) (
        refl,
        claim-busy (claimed t w) taken,
        lock-finish (claimed t w) taken (rw (limit-claimed t w 0 free) limit),
      )

  -- A publish that is refused keeps the lock: after a claim of an observable that is publishing, a
  -- publish returns -EBUSY and leaves the semaphore taken, so that nobody can claim it any more.
  pub publish-busy-locked :
      (t : Timeout) (w : World K)
      → lock w ≡ 1
      → (w.observables obs).publishing ≡ true
      → let (ptr, w1) = weave_observable_claim k (some obs) t w in
        let (r, w2) = weave_observable_publish k p (some obs) w1 in
        (r ≡ neg ebusy)
        × (lock w2 ≡ 0)
        × ((weave_observable_claim k (some obs) no_wait w2).0 ≡ none)
  publish-busy-locked t w free busy =
      let taken = lock-claimed t w 0 free in
      rw (claim-free t w 0 free, publish-busy k p obs (claimed t w) busy)
        (refl, taken, claim-busy (claimed t w) taken)
