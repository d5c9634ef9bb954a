-- ===== src/Table/Published.antt =====
-- A change of an area's observable that is published.
use zephyr_io.Prelude.{◌≡◌, ◌<◌, ◌∙◌, ap, sym, List, ℕ}
use mathlib.Core.Path.{subst}
use zephyr_io.World.{Ptr, World}
use zephyr_io.Kernel.{forever, Kernel, Program, Lawful}
use zephyr_io.Core.Drain.{update_self}
use zephyr_io.Observable.Guard.{claimed, lock-claimed, limit-claimed}
use zephyr_io.Observable.Store.{IsReady}
use zephyr_io.Observable.Notified.{Spares}
use zephyr_io.Observable.Settled.{IsClaimed, publish-IsSettled}
use zephyr_io.Table.Access.{Settings, change_and_publish}
use zephyr_io.Table.Writes.{changed, change_and_publish-eq}

module _ {K : Type 0} {k : Kernel K} (L : Lawful k) (p : Program K) (t : Settings K)
    (obs cell : Ptr) (spares : Spares L p obs cell) (change : World K → List ℕ → List ℕ)
    (w : World K) (r : IsReady L p obs cell w)
    (limit : 0 < (L.view w.kernel).limit (w.observables obs).sem) where
  changed-IsClaimed : IsClaimed L p obs cell (changed L p t obs cell change w)
  changed-IsClaimed = record {
    buffer = r.buffer;
    idle = r.idle;
    taken = lock-claimed L p obs forever w 0 r.free;
    limit = subst (λ n. 0 < n) (sym (limit-claimed L p obs forever w 0 r.free)) limit;
  }

  -- If every handler, ref and unref that runs while the observable notifies leaves its bytes, its
  -- struct and its semaphore as it found them, as a read of it does, it is free again and holds
  -- the changed bytes.
  pub published-IsReady : IsReady L p obs cell (change_and_publish k p t obs change w)
  published-IsReady =
      subst (IsReady L p obs cell) (sym (change_and_publish-eq L p t obs cell change w r))
        (publish-IsSettled L p obs cell (changed L p t obs cell change w) changed-IsClaimed
          spares).ready

  pub published-memory :
      (change_and_publish k p t obs change w).memory cell
      ≡ change (claimed L p obs forever w) (w.memory cell)
  published-memory =
      ap (λ (v : World K). v.memory cell) (change_and_publish-eq L p t obs cell change w r)
      ∙ (publish-IsSettled L p obs cell (changed L p t obs cell change w) changed-IsClaimed
          spares).same_cell
      ∙ update_self w.memory cell (change (claimed L p obs forever w) (w.memory cell))
