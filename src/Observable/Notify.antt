-- ===== src/Observable/Notify.antt =====
-- Who is called by a publish of src/observable.c, and in which order.
use zephyr_io.Prelude.{
  ◌≡◌, refl, ap, ◌∙◌, inl, inr, Option, none, some, List, ◌++◌, false, is_neg, is_zero, is_none,
  Bool-cases, Option-cases,
}
use zephyr_io.World.{Ptr, Source, Observable, World}
use zephyr_io.Kernel.{Timeout, no_wait, Kernel, Program, Lawful}
use zephyr_io.Core.{
  take_ref, release_ref, queue_event, sink_deliver, weave_sink_send, weave_source_emit,
}
use zephyr_io.Core.Deliver.{
  take_ref-none, sink_deliver-unhandled, sink_deliver-immediate, sink_deliver-queued,
}
use zephyr_io.Core.Log.{Call, Logged, sink_calls, immediate_calls}
use zephyr_io.Core.Emit.{sink_deliver-log, weave_source_emit-log}
use zephyr_io.Observable.{notify_owner, notify}

module _ {K : Type 0} {k : Kernel K} {L : Lawful k} {p : Program K} {q : Ptr}
    {log : World K → List Call} (c : Logged L p q log) (obs : Ptr)
    (keeps_sources : (h : Ptr) (ptr ud : Option Ptr) (v : World K)
      → (p.call h ptr ud v).sources ≡ v.sources)
    (keeps_observable : (h : Ptr) (ptr ud : Option Ptr) (v : World K)
      → (p.call h ptr ud v).observables ≡ v.observables) where
  record Keeps (w v : World K) : Type 0 where
    sources : v.sources ≡ w.sources
    observables : v.observables ≡ w.observables

  queue_event-Keeps :
      (r s : Ptr) (ptr : Option Ptr) (t : Timeout) (w : World K)
      → Keeps w (queue_event k p r (record { sink = some s; ptr = ptr; ops = none }) t w).1
  unfolding queue_event release_ref
  queue_event-Keeps r s ptr t w =
      elim (Bool-cases
        (is_zero (k.msgq_put r (record { sink = some s; ptr = ptr; ops = none }) t w.kernel).0)) [
          | inl ok ↦ record { sources = rw ok; observables = rw ok }
          | inr err ↦ record { sources = rw err; observables = rw err }
        ]

  deliver-Keeps :
      (s x : Ptr) (t : Timeout) (w : World K)
      → Keeps w (sink_deliver k p (some s) (some x) none t w).1
  unfolding release_ref
  deliver-Keeps s x t w = elim (Option-cases (p.sink_at s).handler) [
    | inl m ↦
        rw (sink_deliver-unhandled k p s (some x) none t w m)
          (record { sources = refl; observables = refl })
    | inr (h, m) ↦
        let took = take_ref-none k p none x s w refl in
        let goes : is_neg (take_ref p none x s w).0 ≡ false = rw took in
        elim (Option-cases (p.sink_at s).queue) [
          | inl i ↦
              rw (sink_deliver-immediate k p s h x none t w m goes i, took)
                (record {
                  sources = keeps_sources h (some x) (p.sink_at s).user_data w;
                  observables = keeps_observable h (some x) (p.sink_at s).user_data w;
                })
          | inr (r, i) ↦
              rw (sink_deliver-queued k p s h x none t w m r goes i, took)
                (queue_event-Keeps r s (some x) t w)
        ]
  ]

  notify_owner-Keeps : (w : World K) → Keeps w (notify_owner k p obs w)
  unfolding notify_owner weave_sink_send
  notify_owner-Keeps w =
      elim (Bool-cases (is_none (p.sink_at (w.observables obs).owner_sink).handler)) [
        | inl m ↦ rw m (record { sources = refl; observables = refl })
        | inr m ↦ rw m (deliver-Keeps (w.observables obs).owner_sink obs no_wait w)
      ]

  notify_owner-log :
      (w : World K) (es : List Call)
      → log (notify_owner k p obs w) ++ es
        ≡ log w ++ sink_calls p (some (w.observables obs).owner_sink) obs es
  unfolding notify_owner weave_sink_send
  notify_owner-log w es = elim (Option-cases (p.sink_at (w.observables obs).owner_sink).handler) [
    | inl m ↦ rw m
    | inr (h, m) ↦
        let there : is_none (p.sink_at (w.observables obs).owner_sink).handler ≡ false = rw m in
        rw there
          (sink_deliver-log c (some (w.observables obs).owner_sink) none obs no_wait w es refl)
  ]

  -- A notification calls the owner's handler, if it is immediate, and then the handler of each
  -- connected immediate observer, in the order of wiring. It needs a source with ops that cannot
  -- refuse, as the definition macro gives it, and handlers that rewire nothing.
  pub notify-log :
      (o : Ptr) (w : World K)
      → (w.sources (w.observables obs).source).ops ≡ some o
      → (p.ops_at o).ref ≡ none
      → log (notify k p obs w).1
        ≡ log w
          ++ sink_calls p
              (some (w.observables obs).owner_sink)
              obs
              (immediate_calls p (w.sources (w.observables obs).source).sinks obs)
  unfolding notify
  notify-log o w ops no_ref =
      ap (λ s. log (weave_source_emit k p (some s) (some obs) no_wait w').1)
        (ap (λ (f : Ptr → Observable). (f obs).source) kept.observables)
      ∙ weave_source_emit-log c source o obs no_wait w'
          (ap (λ (f : Ptr → Source). (f source).ops) kept.sources ∙ ops) no_ref
      ∙ ap (λ (f : Ptr → Source). log w' ++ immediate_calls p (f source).sinks obs) kept.sources
      ∙ notify_owner-log w (immediate_calls p (w.sources source).sinks obs)
    where
      w' : World K
      w' = notify_owner k p obs w

      source : Ptr
      source = (w.observables obs).source

      kept : Keeps w w'
      kept = notify_owner-Keeps w
