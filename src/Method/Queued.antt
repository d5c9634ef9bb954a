-- ===== src/Method/Queued.antt =====
-- An asynchronous call of src/method.c through the method's queue: send, serve, wait.
use zephyr_io.Prelude.{
  ℕ, ◌+◌, ◌≡◌, refl, ap, ◌∙◌, Option, none, some, List, [], ◌∷◌, ◌++◌, false, ℤ, pos, is_neg,
}
use zephyr_io.World.{Ptr, Event, World}
use zephyr_io.Kernel.{forever, Kernel, Program, View, Lawful}
use zephyr_io.Core.{take_ref, release_ref, queue_event, weave_sink_send, handler_of, process_event}
use zephyr_io.Core.Deliver.{take_ref-none, sink_deliver-queued}
use zephyr_io.Core.Drain.{update_self}
use zephyr_io.Core.Loop.{taken, found_empty}
use zephyr_io.Method.{init_context, complete, send_context}
use zephyr_io.Method.Complete.{IsOpen, IsComplete, init_context-IsOpen}
use zephyr_io.Method.Immediate.{IsDefined, handled, dispatch_call}

module _ {K : Type 0} {k : Kernel K} (L : Lawful k) {p : Program K} {m d : Ptr}
    (def : IsDefined k p m d) (ctx sem q : Ptr)
    (has_queue : (p.sink_at (p.method_at m).sink).queue ≡ some q) where
  -- A call that is open while the method's queue holds `es`.
  pub record Waits (es : List Event) (w : World K) : Type 0 where
    pub is_open : IsOpen L ctx sem w
    pub queue : (L.view w.kernel).queued q ≡ es

  abbrev pub event : Event
  event = record { sink = some (p.method_at m).sink; ptr = some ctx; ops = none }

  abbrev pub sent : World K → World K
  sent w = record w { kernel = (k.msgq_put q event forever w.kernel).1 }

  pub init_context-Waits :
      (request response : Option Ptr) (w : World K)
      → (w.contexts ctx).completion ≡ sem
      → (L.view w.kernel).queued q ≡ []
      → Waits [] (init_context k ctx request response w)
  unfolding init_context
  init_context-Waits request response w c e = record {
    is_open = init_context-IsOpen L ctx sem request response w c;
    queue =
        ap (λ (v : View). v.queued q) (L.sem_init_count (w.contexts ctx).completion 0 1 w.kernel)
        ∙ e;
  }

  pub sent-Waits :
      (w : World K)
      → Waits [] w
      → (k.msgq_put q event forever w.kernel).0 ≡ pos 0
      → Waits (event ∷ []) (sent w)
  sent-Waits w h ok =
      let v = L.put_ok q event forever w.kernel ok in
      record {
        is_open = record {
          completion = h.is_open.completion;
          at_zero = ap (λ (x : View). x.count sem) v ∙ h.is_open.at_zero;
          binary = ap (λ (x : View). x.limit sem) v ∙ h.is_open.binary;
        };
        queue =
            ap (λ (x : View). x.queued q) v
            ∙ update_self ((L.view w.kernel).queued) q _
            ∙ ap (λ es. es ++ event ∷ []) h.queue;
      }

  pub send-queued :
      (request response : Option Ptr) (w : World K)
      → (k.msgq_put q event forever (init_context k ctx request response w).kernel).0 ≡ pos 0
      → send_context k p m request response ctx w
        ≡ (pos 0, sent (init_context k ctx request response w))
  unfolding send_context weave_sink_send
  send-queued request response w ok =
      let w1 = init_context k ctx request response w in
      let took = take_ref-none k p none ctx (p.method_at m).sink w1 refl in
      let goes : is_neg (take_ref p none ctx (p.method_at m).sink w1).0 ≡ false = rw took in
      sink_deliver-queued k p (p.method_at m).sink d ctx none forever w1 def.handler q goes
        has_queue
      ∙ ap (λ (v : ℤ × World K). queue_event k p q event forever v.1) took
      ∙ unfold queue_event in rw ok

  -- What the queue's consumer does with the call.
  pub serve-eq :
      (n : ℕ) (w : World K)
      → process_event p event n w
        ≡ (n + 1, complete k ctx (handled L def ctx sem w).0 (handled L def ctx sem w).1)
  unfolding process_event handler_of release_ref
  serve-eq n w =
      rw (def.handler, handler_of, process_event)
        (ap (λ (v : World K). (n + 1, v)) (dispatch_call L def ctx sem w))

  pub taken-Waits :
      (deadline : ℕ) (w : World K) → Waits (event ∷ []) w → Waits [] (taken L p q deadline w)
  taken-Waits deadline w h =
      let v = (L.get_head q (k.timepoint_timeout deadline w.kernel) w.kernel event [] h.queue).1 in
      record {
        is_open = record {
          completion = h.is_open.completion;
          at_zero = ap (λ (x : View). x.count sem) v ∙ h.is_open.at_zero;
          binary = ap (λ (x : View). x.limit sem) v ∙ h.is_open.binary;
        };
        queue = ap (λ (x : View). x.queued q) v ∙ update_self ((L.view w.kernel).queued) q [];
      }

  pub complete-queue :
      (r : ℤ) (w : World K)
      → (L.view (complete k ctx r w).kernel).queued q ≡ (L.view w.kernel).queued q
  unfolding complete
  complete-queue r w =
      ap (λ (x : View). x.queued q) (L.give_count (w.contexts ctx).completion w.kernel)

  pub found_empty-IsComplete :
      (r : ℤ) (w : World K)
      → (L.view w.kernel).queued q ≡ []
      → IsComplete L ctx sem r w
      → IsComplete L ctx sem r (found_empty L p q w)
  found_empty-IsComplete r w e c = record {
    completion = c.completion;
    result = c.result;
    at_one = ap (λ (x : View). x.count sem) (L.get_empty q w.kernel e).1 ∙ c.at_one;
  }
