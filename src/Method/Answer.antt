-- ===== src/Method/Answer.antt =====
-- The whole of an asynchronous call of src/method.c: it is queued, served, and waited for.
use zephyr_io.Prelude.{
  ℕ, suc, ◌≡◌, ◌≤◌, ◌<◌, refl, sym, ap, ◌∙◌, Option, some, [], ◌∷◌, pos, neg, eagain, length,
}
use mathlib.Core.Path.{subst}
use zephyr_io.World.{Ptr, MethodContext, World}
use zephyr_io.Kernel.{Timeout, no_wait, forever, Kernel, Program, View, Lawful}
use zephyr_io.Core.{process_from, weave_process_messages}
use zephyr_io.Core.Drain.{update_self}
use zephyr_io.Core.Loop.{taken, found_empty, process_from-nil, process_from-cons}
use zephyr_io.Method.{init_context, complete, weave_method_call_async, weave_method_wait}
use zephyr_io.Method.Checks.{accepted_of_large}
use zephyr_io.Method.Complete.{complete-IsComplete, wait-IsComplete, wait-IsOpen}
use zephyr_io.Method.Immediate.{IsDefined, handled}
use zephyr_io.Method.Queued.{
  Waits, event, sent, init_context-Waits, sent-Waits, send-queued, serve-eq, taken-Waits,
  complete-queue, found_empty-IsComplete,
}

module _ {K : Type 0} {k : Kernel K} (L : Lawful k) {p : Program K} {m d : Ptr}
    (def : IsDefined k p m d) (ctx sem q : Ptr)
    (has_queue : (p.sink_at (p.method_at m).sink).queue ≡ some q) where
  -- One drain of the queue from `w` serves the call: in some world the method's handler ran for this
  -- request and this response buffer, and a wait after the drain returns the handler's result.
  pub record Answered (request response : Option Ptr) (fuel : ℕ) (t : Timeout) (w : World K)
      : Type 0 where
    pub at_handler : World K
    pub served : World K
    pub request_kept : (at_handler.contexts ctx).request ≡ request
    pub response_kept : (at_handler.contexts ctx).response ≡ response
    pub drains :
        weave_process_messages k p (suc (suc fuel)) (some q) no_wait w ≡ some (pos 1, served)
    pub answers : (weave_method_wait k (some ctx) t served).0 ≡ (handled L def ctx sem at_handler).0

  module _
      (keeps : (v : World K)
        → Waits L def ctx sem q has_queue [] v
        → Waits L def ctx sem q has_queue [] (handled L def ctx sem v).1) where
    drain_call :
        (request response : Option Ptr) (fuel : ℕ) (t : Timeout) (w : World K)
        → (w.contexts ctx).request ≡ request
        → (w.contexts ctx).response ≡ response
        → Waits L def ctx sem q has_queue (event L def ctx sem q has_queue ∷ []) w
        → Answered request response fuel t w
    unfolding weave_process_messages
    drain_call request response fuel t w h1 h2 h =
        let deadline = k.timepoint_calc no_wait w.kernel in
        let v = taken L p q deadline w in
        let hv = taken-Waits L def ctx sem q has_queue deadline w h in
        let out = handled L def ctx sem v in
        let ho = keeps v hv in
        let u = complete k ctx out.0 out.1 in
        let eu = complete-queue L def ctx sem q has_queue out.0 out.1 ∙ ho.queue in
        record {
          at_handler = v;
          served = found_empty L p q u;
          request_kept = h1;
          response_kept = h2;
          drains =
              process_from-cons L p (suc fuel) q deadline 0 w (event L def ctx sem q has_queue) []
                h.queue
              ∙ ap (λ (c : ℕ × World K). process_from k p (suc fuel) q deadline c.0 c.1)
                  (serve-eq L def ctx sem q has_queue 0 v)
              ∙ process_from-nil L p fuel q deadline 1 u (λ s. L.no_wait_stays w.kernel s) eu;
          answers =
              (wait-IsComplete L ctx sem out.0 t (found_empty L p q u) (
                found_empty-IsComplete L def ctx sem q has_queue out.0 u eu
                  (complete-IsComplete L ctx sem out.0 out.1 ho.is_open))).0;
        }

    -- An asynchronous call with large enough buffers on a method whose queue is empty and has room
    -- returns 0; a wait before it is served returns -EAGAIN; one drain of the queue serves it, and a
    -- wait then returns what the handler returned. The handler has to leave the context, the
    -- semaphore and the empty queue as they are.
    pub call_async-Answered :
        (request response : Option Ptr) (req res fuel : ℕ) (t : Timeout) (w : World K)
        → (p.method_at m).request_size ≤ req
        → (p.method_at m).response_size ≤ res
        → (w.contexts ctx).completion ≡ sem
        → (L.view w.kernel).queued q ≡ []
        → 0 < (L.view w.kernel).capacity q
        → let (ret, w2) =
            weave_method_call_async k p (some m) request req response res (some ctx) w in
          (ret ≡ pos 0)
          × ((weave_method_wait k (some ctx) no_wait w2).0 ≡ neg eagain)
          × Answered request response fuel t w2
    unfolding weave_method_call_async init_context
    call_async-Answered request response req res fuel t w h1 h2 here empty room =
        rw
          (
            accepted_of_large (p.method_at m) req res h1 h2,
            send-queued L def ctx sem q has_queue request response w put,
          )
          (
            refl,
            (wait-IsOpen L ctx sem w2 waits.is_open).0,
            drain_call request response fuel t w2 (ap (λ (c : MethodContext). c.request) filled)
                (ap (λ (c : MethodContext). c.response) filled) waits,
          )
      where
        w1 : World K
        w1 = init_context k ctx request response w

        w2 : World K
        w2 = sent L def ctx sem q has_queue w1

        put : (k.msgq_put q (event L def ctx sem q has_queue) forever w1.kernel).0 ≡ pos 0
        put = L.put_room q (event L def ctx sem q has_queue) forever w1.kernel (
            subst (λ (x : View). length (x.queued q) < x.capacity q)
              (sym (L.sem_init_count (w.contexts ctx).completion 0 1 w.kernel))
              (subst (λ es. length es < (L.view w.kernel).capacity q) (sym empty) room))

        waits : Waits L def ctx sem q has_queue (event L def ctx sem q has_queue ∷ []) w2
        waits =
            sent-Waits L def ctx sem q has_queue w1
              (init_context-Waits L def ctx sem q has_queue request response w here empty) put

        filled :
            w1.contexts ctx
            ≡ record (w.contexts ctx) { result = pos 0; request = request; response = response }
        filled =
            update_self w.contexts ctx
              (record (w.contexts ctx) { result = pos 0; request = request; response = response })
