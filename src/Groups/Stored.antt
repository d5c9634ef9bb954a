-- ===== src/Groups/Stored.antt =====
-- A write to a claimed observable of settings.c: what is published and what is read afterwards.
use zephyr_io.Prelude.{ℕ, ◌≡◌, ◌≤◌, ◌<◌, ◌∙◌, refl, ap, sym, some, length, take, drop}
use mathlib.Core.Path.{subst}
use zephyr_io.World.{Ptr, Observable, World, copy_bytes}
use zephyr_io.Kernel.{forever, Kernel, Program, Lawful}
use zephyr_io.Core.Drain.{update_self}
use zephyr_io.Observable.{weave_observable_finish, weave_observable_publish}
use zephyr_io.Observable.Guard.{claimed, lock-claimed, limit-claimed}
use zephyr_io.Observable.Store.{IsReady}
use zephyr_io.Observable.Notified.{Spares}
use zephyr_io.Observable.Settled.{IsClaimed, IsSettled, publish-IsSettled}
use zephyr_io.Table.Access.{write_at}
use zephyr_io.Table.SetGet.{read-write_at}
use zephyr_io.Groups.Registry.{SettingGroup}
use zephyr_io.Groups.Access.{copy_to, copy_from}

-- `offset` and `n` say which bytes of the value are written.
module _ {K : Type 0} {k : Kernel K} (L : Lawful k) (p : Program K) (group_at : Ptr → SettingGroup)
    (temp obs value buf : Ptr) (offset n : ℕ) (spares : Spares L p obs value) where
  -- What a check before the write may change of a world.
  pub record Checked (w v : World K) : Type 0 where
    pub same_kernel : v.kernel ≡ (claimed L p obs forever w).kernel
    pub same_observables : v.observables ≡ w.observables
    pub same_value : v.memory value ≡ w.memory value
    pub same_buf : v.memory buf ≡ w.memory buf

  pub unchecked-Checked : (w : World K) → Checked w (claimed L p obs forever w)
  unchecked-Checked w = record {
    same_kernel = refl;
    same_observables = refl;
    same_value = refl;
    same_buf = refl;
  }

  module _ (w v : World K) (r : IsReady L p obs value w)
      (limit : 0 < (L.view w.kernel).limit (w.observables obs).sem) (c : Checked w v) where
    -- The world that the write publishes, and the one that it returns.
    abbrev pub stored : World K
    stored = copy_to k p group_at temp value offset buf n v

    abbrev pub after : World K
    after = (weave_observable_publish k p (some obs) stored).1

    same_observable : v.observables obs ≡ w.observables obs
    same_observable = ap (λ f. f obs) c.same_observables

    stored-IsClaimed : IsClaimed L p obs value stored
    stored-IsClaimed = record {
      buffer = ap (λ (o : Observable). o.value) same_observable ∙ r.buffer;
      idle = ap (λ (o : Observable). o.publishing) same_observable ∙ r.idle;
      taken =
          ap (λ (o : Observable). (L.view v.kernel).count o.sem) same_observable
          ∙ ap (λ s. (L.view s).count (w.observables obs).sem) c.same_kernel
          ∙ lock-claimed L p obs forever w 0 r.free;
      limit =
          subst (λ i. 0 < i)
            (sym (
              ap (λ (o : Observable). (L.view v.kernel).limit o.sem) same_observable
              ∙ ap (λ s. (L.view s).limit (w.observables obs).sem) c.same_kernel
              ∙ limit-claimed L p obs forever w 0 r.free))
            limit;
    }

    pub after-IsSettled : IsSettled L p obs value stored after
    after-IsSettled = publish-IsSettled L p obs value stored stored-IsClaimed spares

    pub after-value : after.memory value ≡ write_at (w.memory value) offset (w.memory buf) n
    after-value =
        after-IsSettled.same_cell
        ∙ update_self v.memory value (write_at (v.memory value) offset (v.memory buf) n)
        ∙ ap (λ bs. write_at bs offset (v.memory buf) n) c.same_value
        ∙ ap (λ bs. write_at (w.memory value) offset bs n) c.same_buf

    -- A read of these bytes from the world that the write returns.
    abbrev pub read_world : Ptr → World K
    read_world out =
        weave_observable_finish k (some obs)
          (copy_from k p group_at temp value offset out n (claimed L p obs forever after))

    pub read-after :
        (out : Ptr)
        → offset ≤ length (w.memory value)
        → n ≤ length (w.memory buf)
        → take n ((read_world out).memory out) ≡ take n (w.memory buf)
    unfolding weave_observable_finish
    read-after out inside fits =
        ap (take n) (
          update_self after.memory out
            (copy_bytes (after.memory out) (drop offset (after.memory value)) n))
        ∙ ap (λ bs. take n (copy_bytes (after.memory out) (drop offset bs) n)) after-value
        ∙ read-write_at n offset (w.memory value) (w.memory buf) (after.memory out) inside fits
