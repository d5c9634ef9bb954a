-- ===== src/Observable/Settled.antt =====
-- A publish of src/observable.c whose handlers spare the observable.
use zephyr_io.Prelude.{◌≡◌, sym, ap, ◌∙◌, ◌<◌, some, true, false}
use mathlib.Core.Path.{subst}
use zephyr_io.World.{Ptr, Observable, World}
use zephyr_io.Kernel.{Kernel, Program, Lawful}
use zephyr_io.Core.Drain.{update_self}
use zephyr_io.Observable.{set_publishing, weave_observable_finish, notify, weave_observable_publish}
use zephyr_io.Observable.Guard.{lock, limit-finish, lock-finish, publish-notifies}
use zephyr_io.Observable.Store.{IsReady, Quiet}
use zephyr_io.Observable.Notified.{IsNotifying, Spares, notify-Quiet}

module _ {K : Type 0} {k : Kernel K} (L : Lawful k) (p : Program K) (obs cell : Ptr) where
  -- A claimed observable that can be published.
  pub record IsClaimed (w : World K) : Type 0 where
    pub buffer : (w.observables obs).value ≡ some cell
    pub idle : (w.observables obs).publishing ≡ false
    pub taken : lock L p obs w ≡ 0
    pub limit : 0 < (L.view w.kernel).limit (w.observables obs).sem

  -- The observable after a publish: free again, its bytes as published.
  pub record IsSettled (w v : World K) : Type 0 where
    pub ready : IsReady L p obs cell v
    pub limit : 0 < (L.view v.kernel).limit (v.observables obs).sem
    pub same_cell : v.memory cell ≡ w.memory cell
    pub same_observable : v.observables obs ≡ w.observables obs

module _ {K : Type 0} {k : Kernel K} (L : Lawful k) (p : Program K) (obs cell : Ptr) (w : World K)
    (c : IsClaimed L p obs cell w) (spares : Spares L p obs cell) where
  abbrev guarded : World K
  guarded = set_publishing obs true w

  abbrev before : World K
  before = weave_observable_finish k (some obs) guarded

  abbrev after : World K
  after = set_publishing obs false (notify k p obs before).1

  before-observable : before.observables obs ≡ record (w.observables obs) { publishing = true }
  unfolding weave_observable_finish
  before-observable =
      update_self w.observables obs (record (w.observables obs) { publishing = true })

  guarded-sem : (guarded.observables obs).sem ≡ (w.observables obs).sem
  guarded-sem =
      ap (λ (o : Observable). o.sem)
        (update_self w.observables obs (record (w.observables obs) { publishing = true }))

  before-lock : (L.view before.kernel).count (w.observables obs).sem ≡ 1
  before-lock =
      ap (λ s. (L.view before.kernel).count s)
        (ap (λ (o : Observable). o.sem) (sym before-observable))
      ∙ lock-finish L p obs guarded (ap (λ s. (L.view w.kernel).count s) guarded-sem ∙ c.taken)
          (subst (λ s. 0 < (L.view w.kernel).limit s) (sym guarded-sem) c.limit)

  before-limit :
      (L.view before.kernel).limit (w.observables obs).sem
      ≡ (L.view w.kernel).limit (w.observables obs).sem
  before-limit = limit-finish L p obs guarded (w.observables obs).sem

  before-IsNotifying : IsNotifying L p obs cell before
  before-IsNotifying = record {
    buffer = ap (λ (o : Observable). o.value) before-observable ∙ c.buffer;
    busy = ap (λ (o : Observable). o.publishing) before-observable;
    free =
        ap (λ s. (L.view before.kernel).count s) (ap (λ (o : Observable). o.sem) before-observable)
        ∙ before-lock;
    limit =
        subst (λ n. 0 < n)
          (sym (
            ap (λ (o : Observable). (L.view before.kernel).limit o.sem) before-observable
            ∙ before-limit))
          c.limit;
  }

  quiet : Quiet L p obs cell before (notify k p obs before).1
  quiet = notify-Quiet L p obs cell spares before before-IsNotifying

  after-observable : after.observables obs ≡ w.observables obs
  after-observable =
      update_self ((notify k p obs before).1.observables) obs
        (record ((notify k p obs before).1.observables obs) { publishing = false })
      ∙ ap (λ (o : Observable). record o { publishing = false })
          (quiet.same_observable ∙ before-observable)
      ∙ ap (λ b. record (w.observables obs) { publishing = b }) (sym c.idle)

  before-sem : (before.observables obs).sem ≡ (w.observables obs).sem
  before-sem = ap (λ (o : Observable). o.sem) before-observable

  after-lock : lock L p obs after ≡ 1
  after-lock =
      ap (λ (o : Observable). (L.view (notify k p obs before).1.kernel).count o.sem)
        after-observable
      ∙ ap (λ s. (L.view (notify k p obs before).1.kernel).count s) (sym before-sem)
      ∙ quiet.same_count
      ∙ before-IsNotifying.free

  after-limit : 0 < (L.view after.kernel).limit (after.observables obs).sem
  after-limit =
      subst (λ n. 0 < n)
        (sym (
          ap (λ (o : Observable). (L.view (notify k p obs before).1.kernel).limit o.sem)
            after-observable
          ∙ ap (λ s. (L.view (notify k p obs before).1.kernel).limit s) (sym before-sem)
          ∙ quiet.same_limit))
        before-IsNotifying.limit

  after-cell : after.memory cell ≡ w.memory cell
  unfolding weave_observable_finish
  after-cell = quiet.same_cell

  -- If the handlers spare the observable, a publish frees it and keeps its bytes.
  pub publish-IsSettled : IsSettled L p obs cell w (weave_observable_publish k p (some obs) w).1
  publish-IsSettled = rw ((publish-notifies k p obs w c.idle).0) (record {
    ready = record {
      buffer = ap (λ (o : Observable). o.value) after-observable ∙ c.buffer;
      idle = ap (λ (o : Observable). o.publishing) after-observable ∙ c.idle;
      free = after-lock;
    };
    limit = after-limit;
    same_cell = after-cell;
    same_observable = after-observable;
  })
