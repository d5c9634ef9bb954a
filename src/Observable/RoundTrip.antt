-- ===== src/Observable/RoundTrip.antt =====
-- A get after a set of src/observable.c reads what was set.
use zephyr_io.Prelude.{
  ℤ, ℕ, ◌≡◌, sym, ap, ◌∙◌, ◌<◌, List, drop, some, pos, take, length, take-all, take-append_exact,
}
use mathlib.Core.Path.{subst}
use zephyr_io.World.{Ptr, Observable, World, memcpy, copy_bytes}
use zephyr_io.Kernel.{forever, Kernel, Program, Lawful}
use zephyr_io.Core.Drain.{update_self}
use zephyr_io.Observable.{
  weave_observable_publish, weave_observable_validate, weave_observable_set_unchecked,
  weave_observable_get_unchecked,
}
use zephyr_io.Observable.Guard.{claimed, lock-claimed, limit-claimed, publish-notifies}
use zephyr_io.Observable.Settled.{IsClaimed, IsSettled, publish-IsSettled}
use zephyr_io.Observable.Store.{IsReady, set-accepted, get-reads}
use zephyr_io.Observable.Notified.{Spares}

-- The first `n` bytes of a copy of `n` bytes, there and back, are the bytes copied.
copy_bytes-copy_bytes :
    (a b c : List ℕ) (n : ℕ) → length c ≡ n → take n (copy_bytes a (copy_bytes b c n) n) ≡ c
copy_bytes-copy_bytes a b c n h =
    let whole : take n c ≡ c = rw (← h) (take-all c) in
    rw (whole, take-append_exact n c (drop n b) (sym h)) (take-append_exact n c (drop n a) (sym h))

module _ {K : Type 0} {k : Kernel K} (L : Lawful k) (p : Program K) (obs cell value : Ptr)
    (w : World K) (r : IsReady L p obs cell w)
    (limit : 0 < (L.view w.kernel).limit (w.observables obs).sem)
    (spares : Spares L p obs cell) where
  -- The world that the set publishes.
  abbrev written : World K
  written = memcpy cell value (w.observables obs).size (claimed L p obs forever w)

  written-IsClaimed : IsClaimed L p obs cell written
  written-IsClaimed = record {
    buffer = r.buffer;
    idle = r.idle;
    taken = lock-claimed L p obs forever w 0 r.free;
    limit = subst (λ n. 0 < n) (sym (limit-claimed L p obs forever w 0 r.free)) limit;
  }

  abbrev after : World K
  after = (weave_observable_publish k p (some obs) written).1

  after-IsSettled : IsSettled L p obs cell written after
  after-IsSettled = publish-IsSettled L p obs cell written written-IsClaimed spares

  after-cell :
      after.memory cell ≡ copy_bytes (w.memory cell) (w.memory value) (w.observables obs).size
  after-cell =
      after-IsSettled.same_cell
      ∙ update_self w.memory cell
          (copy_bytes (w.memory cell) (w.memory value) (w.observables obs).size)

  set-after :
      weave_observable_validate k p (some obs) (some value) w ≡ (pos 0, w)
      → (weave_observable_set_unchecked k p (some obs) (some value) w).1 ≡ after
  set-after accepts =
      ap (λ (o : ℤ × World K). o.1)
        (set-accepted L p obs cell value w r accepts
          ∙ sym ((publish-notifies k p obs written r.idle).0))

  -- Round trip: an observable that has a buffer, is free and is not publishing is set to a value
  -- of its size, which the validator, if there is one, accepts without a change of the world. If
  -- every handler, ref and unref that runs while the observable notifies leaves its bytes, its
  -- struct and its semaphore as it found them, as a read of it does, a get after the set returns 0
  -- and the caller's buffer starts with the bytes that were set.
  pub get-set :
      (out : Ptr)
      → weave_observable_validate k p (some obs) (some value) w ≡ (pos 0, w)
      → length (w.memory value) ≡ (w.observables obs).size
      → let w1 = (weave_observable_set_unchecked k p (some obs) (some value) w).1 in
        let (ret, w2) = weave_observable_get_unchecked k p (some obs) (some out) w1 in
        (ret ≡ pos 0) × (take (w.observables obs).size (w2.memory out) ≡ w.memory value)
  get-set out accepts fits =
      let got = get-reads L p obs cell out after after-IsSettled.ready after-IsSettled.limit in
      rw (set-after accepts) (
        got.0,
        ap (take (w.observables obs).size) (
              got.1
              ∙ ap (λ (o : Observable). copy_bytes (after.memory out) (after.memory cell) o.size)
                  after-IsSettled.same_observable
              ∙ ap (λ bs. copy_bytes (after.memory out) bs (w.observables obs).size) after-cell)
            ∙ copy_bytes-copy_bytes (after.memory out) (w.memory cell) (w.memory value)
                (w.observables obs).size fits,
      )
