-- ===== src/Core/Emit.antt =====
-- `weave_source_emit` of src/core.c as a fan-out over the connections of the source.
use zephyr_io.Prelude.{
  ℕ, suc, ◌+◌, ◌≡◌, refl, sym, ap, ◌∙◌, inl, inr, Option, none, some, List, [], ◌∷◌, ◌++◌, false, ℤ,
  pos, neg, is_neg, is_zero, einval, arith, if◌then◌else◌, Bool-cases, Option-cases,
}
use mathlib.Core.List.{append_assoc, append-nil}
use zephyr_io.World.{Ptr, Connection, Event, World}
use zephyr_io.Kernel.{Timeout, Kernel, Program, Lawful}
use zephyr_io.Core.{ref_of, take_ref, queue_event, sink_deliver, emit_from, weave_source_emit}
use zephyr_io.Core.Deliver.{
  take_ref-none, sink_deliver-unhandled, sink_deliver-immediate, sink_deliver-queued,
}
use zephyr_io.Core.Log.{Call, Logged, immediate_calls, sink_calls}
use zephyr_io.Core.Drain.{release-log}

abbrev pub zeros : List ℤ → ℕ
zeros [] = 0
zeros (r ∷ rs) = if is_zero r then suc (zeros rs) else zeros rs

module _ {K : Type 0} (k : Kernel K) (p : Program K) where
  -- What an emission is to do: one delivery for each connection, in order, whatever the others
  -- return.
  unfoldable pub deliver_each : List Connection → Option Ptr → Ptr → ℕ → World K → List ℤ × World K
  deliver_each [] ops x deadline w = ([], w)
  deliver_each (c ∷ cs) ops x deadline w =
      let (r, w1) =
        sink_deliver k p c.sink (some x) ops (k.timepoint_timeout deadline w.kernel) w in
      let (rs, w2) = deliver_each cs ops x deadline w1 in (r ∷ rs, w2)

  -- What an emission without ops is to do: it tries the connections up to the first that takes the
  -- payload, and reports -EINVAL if any is left then.
  unfoldable pub deliver_one : List Connection → Ptr → ℕ → World K → ℤ × World K
  deliver_one [] x deadline w = (pos 0, w)
  deliver_one (c ∷ cs) x deadline w =
      let (r, w1) =
        sink_deliver k p c.sink (some x) none (k.timepoint_timeout deadline w.kernel) w in
      let rest = deliver_one cs x deadline w1 in
      if is_zero r then (elim cs [ [] ↦ pos 1 | _ ∷ _ ↦ neg einval ], w1) else rest

  emit_from-each :
      (cs : List Connection) (o x deadline d : ℕ) (w : World K)
      → emit_from k p cs (some o) x deadline d w ≡ (
        pos (d + zeros (deliver_each cs (some o) x deadline w).0),
        (deliver_each cs (some o) x deadline w).1,
      )
  unfolding emit_from deliver_each
  emit_from-each [] o x deadline d w = ap (λ n. (pos n, w)) (omega arith)
  emit_from-each (c ∷ cs) o x deadline d w =
      let r = sink_deliver k p c.sink (some x) (some o) (k.timepoint_timeout deadline w.kernel) w in
      elim (Bool-cases (is_zero r.0)) [
        | inl ok ↦ rw ok (
            emit_from-each cs o x deadline (d + 1) r.1
            ∙ ap (λ n. (pos n, (deliver_each cs (some o) x deadline r.1).1)) (omega arith))
        | inr no_ ↦ rw no_ (emit_from-each cs o x deadline d r.1)
      ]

  -- With payload ops an emission makes one delivery for each connection, and returns how many of
  -- them succeeded.
  pub weave_source_emit-each :
      (source x o : Ptr) (t : Timeout) (w : World K)
      → (w.sources source).ops ≡ some o
      → let out =
          deliver_each (w.sources source).sinks (some o) x (k.timepoint_calc t w.kernel) w in
        weave_source_emit k p (some source) (some x) t w ≡ (pos (zeros out.0), out.1)
  unfolding weave_source_emit
  weave_source_emit-each source x o t w e = rw e (
      emit_from-each _ o x _ 0 w
      ∙ ap
          (λ n. (
            pos n,
            (deliver_each (w.sources source).sinks (some o) x (k.timepoint_calc t w.kernel) w).1,
          ))
          (omega arith))

  emit_from-taken :
      (c : Connection) (cs : List Connection) (x deadline d : ℕ) (w : World K)
      → emit_from k p (c ∷ cs) none x deadline (suc d) w ≡ (neg einval, w)
  unfolding emit_from
  emit_from-taken c cs x deadline d w = ground arith

  emit_from-one :
      (cs : List Connection) (x deadline : ℕ) (w : World K)
      → emit_from k p cs none x deadline 0 w ≡ deliver_one cs x deadline w
  unfolding emit_from deliver_one
  emit_from-one [] x deadline w = refl
  emit_from-one (c ∷ cs) x deadline w =
      let r = sink_deliver k p c.sink (some x) none (k.timepoint_timeout deadline w.kernel) w in
      elim (Bool-cases (is_zero r.0)) [
        | inl ok ↦ rw ok (last cs r.1)
        | inr no_ ↦ rw no_ (emit_from-one cs x deadline r.1)
      ]
    where
      last :
          (cs : List Connection) (v : World K)
          → emit_from k p cs none x deadline (0 + 1) v
            ≡ (elim cs [ [] ↦ pos 1 | _ ∷ _ ↦ neg einval ], v)
      last [] v = refl
      last (c ∷ cs) v = emit_from-taken c cs x deadline 0 v

  -- Without payload ops an emission delivers at most once: it tries the connections up to the
  -- first that takes the payload, and returns -EINVAL if any connection is left then.
  pub weave_source_emit-one :
      (source x : Ptr) (t : Timeout) (w : World K)
      → (w.sources source).ops ≡ none
      → weave_source_emit k p (some source) (some x) t w
        ≡ deliver_one (w.sources source).sinks x (k.timepoint_calc t w.kernel) w
  unfolding weave_source_emit
  weave_source_emit-one source x t w e = rw e (emit_from-one _ x _ w)

module _ {K : Type 0} {k : Kernel K} {L : Lawful k} {p : Program K} {q : Ptr}
    {log : World K → List Call} (c : Logged L p q log) where
  queue_event-log :
      (r : Ptr) (e : Event) (t : Timeout) (w : World K) → log (queue_event k p r e t w).1 ≡ log w
  unfolding queue_event
  queue_event-log r e t w = elim (Bool-cases (is_zero (k.msgq_put r e t w.kernel).0)) [
    | inl ok ↦ rw ok (c.log-put r e t w)
    | inr err ↦ rw err (release-log c e.ops e.ptr _ ∙ c.log-put r e t w)
  ]

  -- Without a `ref` that may refuse, a delivery calls the handler of an immediate sink, and of no
  -- other.
  pub sink_deliver-log :
      (sink ops : Option Ptr) (x : Ptr) (t : Timeout) (w : World K) (es : List Call)
      → ref_of p ops ≡ none
      → log (sink_deliver k p sink (some x) ops t w).1 ++ es ≡ log w ++ sink_calls p sink x es
  sink_deliver-log none ops x t w es no_ref = unfold sink_deliver in refl
  sink_deliver-log (some s) ops x t w es no_ref = elim (Option-cases (p.sink_at s).handler) [
    | inl m ↦ rw (sink_deliver-unhandled k p s (some x) ops t w m, m)
    | inr (h, m) ↦
        let took = take_ref-none k p ops x s w no_ref in
        let goes : is_neg (take_ref p ops x s w).0 ≡ false = rw took in
        elim (Option-cases (p.sink_at s).queue) [
          | inl i ↦
              rw
                (
                  sink_deliver-immediate k p s h x ops t w m goes i,
                  took,
                  m,
                  i,
                  release-log c ops,
                  c.log-call,
                )
                (append_assoc (log w) ((h, some x) ∷ []) es)
          | inr (r, i) ↦
              rw (sink_deliver-queued k p s h x ops t w m r goes i, took, m, i)
                (ap (λ l. l ++ es) (queue_event-log r _ t w))
        ]
  ]

  pub emit_from-log :
      (cs : List Connection) (o x deadline d : ℕ) (w : World K)
      → ref_of p (some o) ≡ none
      → log (emit_from k p cs (some o) x deadline d w).1 ≡ log w ++ immediate_calls p cs x
  unfolding emit_from immediate_calls
  emit_from-log [] o x deadline d w no_ref = sym (append-nil (log w))
  emit_from-log (conn ∷ cs) o x deadline d w no_ref =
      emit_from-log cs o x deadline _ _ no_ref ∙ sink_deliver-log conn.sink (some o) x _ w _ no_ref

  -- With ops that cannot refuse, an emission calls the handler of each connected immediate sink
  -- once, in the order of wiring, whichever queues of the other sinks are full.
  pub weave_source_emit-log :
      (source o x : Ptr) (t : Timeout) (w : World K)
      → (w.sources source).ops ≡ some o
      → (p.ops_at o).ref ≡ none
      → log (weave_source_emit k p (some source) (some x) t w).1
        ≡ log w ++ immediate_calls p (w.sources source).sinks x
  unfolding weave_source_emit
  weave_source_emit-log source o x t w e no_ref = rw e (emit_from-log _ o x _ 0 w no_ref)
