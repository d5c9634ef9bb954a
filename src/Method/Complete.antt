-- ===== src/Method/Complete.antt =====
-- The completion semaphore of a call's context in src/method.c.
use zephyr_io.Prelude.{◌≡◌, refl, ap, ◌∙◌, Option, some, ℤ, pos, neg, eagain}
use zephyr_io.World.{Ptr, MethodContext, World}
use zephyr_io.Kernel.{Timeout, no_wait, Kernel, View, Lawful}
use zephyr_io.Core.Drain.{update_self}
use zephyr_io.Method.{init_context, complete, await_result, weave_method_wait}

module _ {K : Type 0} {k : Kernel K} (L : Lawful k) (ctx sem : Ptr) where
  -- A call that has been made and is not complete: its semaphore is at 0 of 1.
  pub record IsOpen (w : World K) : Type 0 where
    pub completion : (w.contexts ctx).completion ≡ sem
    pub at_zero : (L.view w.kernel).count sem ≡ 0
    pub binary : (L.view w.kernel).limit sem ≡ 1

  -- A call that is complete with result `r`.
  pub record IsComplete (r : ℤ) (w : World K) : Type 0 where
    pub completion : (w.contexts ctx).completion ≡ sem
    pub result : (w.contexts ctx).result ≡ r
    pub at_one : (L.view w.kernel).count sem ≡ 1

  pub init_context-IsOpen :
      (request response : Option Ptr) (w : World K)
      → (w.contexts ctx).completion ≡ sem
      → IsOpen (init_context k ctx request response w)
  unfolding init_context
  init_context-IsOpen request response w c =
      let here =
        update_self w.contexts ctx
          (record (w.contexts ctx) { result = pos 0; request = request; response = response }) in
      let v = L.sem_init_count (w.contexts ctx).completion 0 1 w.kernel in
      record {
        completion = ap (λ (x : MethodContext). x.completion) here ∙ c;
        at_zero =
            ap (λ (x : View). x.count sem) v ∙ rw c (update_self ((L.view w.kernel).count) sem 0);
        binary =
            ap (λ (x : View). x.limit sem) v ∙ rw c (update_self ((L.view w.kernel).limit) sem 1);
      }

  pub complete-IsComplete : (r : ℤ) (w : World K) → IsOpen w → IsComplete r (complete k ctx r w)
  unfolding complete
  complete-IsComplete r w o =
      let here = update_self w.contexts ctx (record (w.contexts ctx) { result = r }) in
      record {
        completion = ap (λ (x : MethodContext). x.completion) here ∙ o.completion;
        result = ap (λ (x : MethodContext). x.result) here;
        at_one =
            ap (λ (x : View). x.count sem) (L.give_count (w.contexts ctx).completion w.kernel)
            ∙ rw (o.completion)
                (update_self ((L.view w.kernel).count) sem _ ∙ rw (o.at_zero, o.binary));
      }

  -- A wait, however short, on a call that is complete returns the call's result, and takes the
  -- semaphore back to 0.
  pub wait-IsComplete :
      (r : ℤ) (t : Timeout) (w : World K)
      → IsComplete r w
      → ((weave_method_wait k (some ctx) t w).0 ≡ r)
        × ((L.view (weave_method_wait k (some ctx) t w).1.kernel).count sem ≡ 0)
  unfolding weave_method_wait
  wait-IsComplete r t w c =
      let got = L.take_ready sem t w.kernel 0 c.at_one in
      rw (c.completion, got.0)
        (
          c.result,
          ap (λ (x : View). x.count sem) got.1 ∙ update_self ((L.view w.kernel).count) sem 0,
        )

  -- A wait that may not block on a call that is not complete returns -EAGAIN, and the call can still
  -- be completed and waited for.
  pub wait-IsOpen :
      (w : World K)
      → IsOpen w
      → ((weave_method_wait k (some ctx) no_wait w).0 ≡ neg eagain)
        × IsOpen (weave_method_wait k (some ctx) no_wait w).1
  unfolding weave_method_wait
  wait-IsOpen w o =
      let busy = L.take_busy sem w.kernel o.at_zero in
      rw (o.completion, busy.0)
        (
          refl,
          record {
            completion = o.completion;
            at_zero = ap (λ (x : View). x.count sem) busy.1 ∙ o.at_zero;
            binary = ap (λ (x : View). x.limit sem) busy.1 ∙ o.binary;
          },
        )

  pub await-IsComplete :
      (r : ℤ) (w : World K) → IsComplete r w → (await_result k ctx (pos 0) w).0 ≡ r
  unfolding await_result
  await-IsComplete r w c = c.result
