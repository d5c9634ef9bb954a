-- ===== src/Image/Boot.antt =====
-- An observable that its macro lays out, at boot and at its first set and get.
use zephyr_io.Prelude.{ℕ, ◌≡◌, ◌<◌, ◌∙◌, ap, sym, Option, arith}
use mathlib.Core.Path.{subst}
use zephyr_io.World.{Ptr, Observable, World}
use zephyr_io.Kernel.{Kernel, Program, Lawful}
use zephyr_io.Observable.Store.{IsReady}
use zephyr_io.Image.Macros.{ObservableLayout, ObservableStatics, weave_observable_define}

module _ {K : Type 0} {k : Kernel K} (L : Lawful k) (p : Program K) (obs : Ptr) where
  -- The world has the observable at `obs` as the macro lays it out, its semaphore included.
  pub record Boots (s : ObservableStatics) (w : World K) : Type 0 where
    pub observable_is : w.observables obs ≡ s.observable
    pub count_is : (L.view w.kernel).count s.observable.sem ≡ s.sem_count
    pub limit_is : (L.view w.kernel).limit s.observable.sem ≡ s.sem_limit

  module _ (at_ : ObservableLayout) (ops : Ptr) (size : ℕ)
      (handler queue user_data validator : Option Ptr) (w : World K)
      (b : Boots (weave_observable_define at_ ops size handler queue user_data validator) w) where
    pub boots-IsReady : IsReady L p obs at_.value w
    unfolding weave_observable_define
    boots-IsReady = record {
      buffer = ap (λ (o : Observable). o.value) b.observable_is;
      idle = ap (λ (o : Observable). o.publishing) b.observable_is;
      free = ap (λ (o : Observable). (L.view w.kernel).count o.sem) b.observable_is ∙ b.count_is;
    }

    pub boots-limit : 0 < (L.view w.kernel).limit (w.observables obs).sem
    unfolding weave_observable_define
    boots-limit =
        subst (λ n. 0 < n)
          (sym
            (ap (λ (o : Observable). (L.view w.kernel).limit o.sem) b.observable_is ∙ b.limit_is))
          (omega arith)
