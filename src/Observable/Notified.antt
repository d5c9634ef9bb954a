-- ===== src/Observable/Notified.antt =====
-- The handlers that a publish of src/observable.c notifies, and what they leave alone.
use zephyr_io.Prelude.{
  ℕ, ◌≡◌, ◌≢◌, ◌<◌, ◌∙◌, refl, ap, sym, inl, inr, Option, none, some, List, [], ◌∷◌, true, ◌&&◌,
  ltb, is_neg, is_zero, is_zero→eq, is_none, Bool-cases, Option-cases,
}
use mathlib.Core.Path.{subst}
use zephyr_io.World.{Ptr, Observable, Connection, Event, World, memcpy, copy_bytes}
use zephyr_io.Kernel.{forever, no_wait, Timeout, Kernel, Program, View, Lawful}
use zephyr_io.Core.Drain.{update_other}
use zephyr_io.Core.{
  take_ref, release_ref, ref_of, unref_of, queue_event, hand_over, deliver_checked, sink_deliver,
  emit_from, weave_source_emit, weave_sink_send,
}
use zephyr_io.Observable.{
  notify_owner, notify, weave_observable_finish, weave_observable_get_unchecked,
}
use zephyr_io.Observable.Guard.{
  lock, claimed, lock-claimed, limit-claimed, lock-finish, limit-finish,
}
use zephyr_io.Observable.Store.{Quiet, get-eq}

module _ {K : Type 0} {k : Kernel K} (L : Lawful k) (p : Program K) (obs cell : Ptr) where
  -- The observable as its handlers find it: its guard is up, its semaphore has been given back.
  pub record IsNotifying (w : World K) : Type 0 where
    pub buffer : (w.observables obs).value ≡ some cell
    pub busy : (w.observables obs).publishing ≡ true
    pub free : lock L p obs w ≡ 1
    pub limit : 0 < (L.view w.kernel).limit (w.observables obs).sem

  -- Handlers, ref and unref that run while the observable notifies leave it as they found it: its
  -- bytes, its struct and its semaphore. They can read it.
  pub record Spares : Type 0 where
    pub handlers :
        (h : Ptr) (ptr ud : Option Ptr) (v : World K)
        → IsNotifying v
        → Quiet L p obs cell v (p.call h ptr ud v)
    pub refs :
        (f x s : Ptr) (v : World K) → IsNotifying v → Quiet L p obs cell v (p.call_ref f x s v).1
    pub unrefs :
        (g : Ptr) (ptr : Option Ptr) (v : World K)
        → IsNotifying v
        → Quiet L p obs cell v (p.call_unref g ptr v)

  pub Quiet-refl : (w : World K) → Quiet L p obs cell w w
  Quiet-refl w = record {
    same_cell = refl;
    same_observable = refl;
    same_count = refl;
    same_limit = refl;
  }

  pub Quiet-IsNotifying : (w v : World K) → Quiet L p obs cell w v → IsNotifying w → IsNotifying v
  Quiet-IsNotifying w v q n = record {
    buffer = ap (λ (o : Observable). o.value) q.same_observable ∙ n.buffer;
    busy = ap (λ (o : Observable). o.publishing) q.same_observable ∙ n.busy;
    free =
        ap (λ (o : Observable). (L.view v.kernel).count o.sem) q.same_observable
        ∙ q.same_count
        ∙ n.free;
    limit =
        subst (λ i. 0 < i)
          (sym (
            ap (λ (o : Observable). (L.view v.kernel).limit o.sem) q.same_observable
            ∙ q.same_limit))
          n.limit;
  }

  Quiet-trans :
      (w v u : World K) → Quiet L p obs cell w v → Quiet L p obs cell v u → Quiet L p obs cell w u
  Quiet-trans w v u a b = record {
    same_cell = b.same_cell ∙ a.same_cell;
    same_observable = b.same_observable ∙ a.same_observable;
    same_count =
        ap (λ (o : Observable). (L.view u.kernel).count o.sem) (sym a.same_observable)
        ∙ b.same_count
        ∙ ap (λ (o : Observable). (L.view v.kernel).count o.sem) a.same_observable
        ∙ a.same_count;
    same_limit =
        ap (λ (o : Observable). (L.view u.kernel).limit o.sem) (sym a.same_observable)
        ∙ b.same_limit
        ∙ ap (λ (o : Observable). (L.view v.kernel).limit o.sem) a.same_observable
        ∙ a.same_limit;
  }

  put-Quiet :
      (q : Ptr) (e : Event) (t : Timeout) (w : World K)
      → Quiet L p obs cell w (record w { kernel = (k.msgq_put q e t w.kernel).1 })
  put-Quiet q e t w = elim (Bool-cases (is_zero (k.msgq_put q e t w.kernel).0)) [
    | inl ok ↦
        let v = L.put_ok q e t w.kernel (is_zero→eq _ ok) in
        record {
          same_cell = refl;
          same_observable = refl;
          same_count = ap (λ (x : View). x.count (w.observables obs).sem) v;
          same_limit = ap (λ (x : View). x.limit (w.observables obs).sem) v;
        }
    | inr err ↦
        let v = L.put_err q e t w.kernel err in
        record {
          same_cell = refl;
          same_observable = refl;
          same_count = ap (λ (x : View). x.count (w.observables obs).sem) v;
          same_limit = ap (λ (x : View). x.limit (w.observables obs).sem) v;
        }
  ]

  -- A handler that reads the observable spares it.
  pub get-Quiet :
      (out : Ptr) (w : World K)
      → cell ≢ out
      → IsNotifying w
      → Quiet L p obs cell w (weave_observable_get_unchecked k p (some obs) (some out) w).1
  get-Quiet out w ne n =
      let sem = (w.observables obs).sem in
      let v = memcpy out cell (w.observables obs).size (claimed L p obs forever w) in
      let taken = lock-claimed L p obs forever w 0 n.free in
      let same = limit-claimed L p obs forever w 0 n.free in
      rw (get-eq L p obs cell out w n.buffer n.free) (record {
        same_cell =
            unfold weave_observable_finish in
            update_other w.memory out cell
              (copy_bytes (w.memory out) (w.memory cell) (w.observables obs).size) ne;
        same_observable = unfold weave_observable_finish in refl;
        same_count =
            unfold weave_observable_finish in
            lock-finish L p obs v taken (subst (λ i. 0 < i) (sym same) n.limit) ∙ sym n.free;
        same_limit = limit-finish L p obs v sem ∙ same;
      })

module _ {K : Type 0} {k : Kernel K} (L : Lawful k) (p : Program K) (obs cell : Ptr)
    (s : Spares L p obs cell) (w : World K) (n : IsNotifying L p obs cell w) where
  abbrev Q : World K → Type 0
  Q v = Quiet L p obs cell w v

  after-call : (h : Ptr) (ptr ud : Option Ptr) (v : World K) → Q v → Q (p.call h ptr ud v)
  after-call h ptr ud v q =
      Quiet-trans L p obs cell w v (p.call h ptr ud v) q
        (s.handlers h ptr ud v (Quiet-IsNotifying L p obs cell w v q n))

  release-Quiet : (ops ptr : Option Ptr) (v : World K) → Q v → Q (release_ref p ops ptr v)
  unfolding release_ref
  release-Quiet ops ptr v q = elim (Option-cases (unref_of p ops)) [
    | inl e ↦ rw (e, release_ref) q
    | inr (g, e) ↦
        rw (e, release_ref)
          (Quiet-trans L p obs cell w v (p.call_unref g ptr v) q
            (s.unrefs g ptr v (Quiet-IsNotifying L p obs cell w v q n)))
  ]

  take-Quiet : (ops : Option Ptr) (x t : Ptr) (v : World K) → Q v → Q (take_ref p ops x t v).1
  unfolding take_ref
  take-Quiet ops x t v q = elim (Option-cases (ref_of p ops)) [
    | inl e ↦ rw (e, take_ref) q
    | inr (f, e) ↦
        rw (e, take_ref)
          (Quiet-trans L p obs cell w v (p.call_ref f x t v).1 q
            (s.refs f x t v (Quiet-IsNotifying L p obs cell w v q n)))
  ]

  queue-Quiet :
      (queue : Ptr) (e : Event) (t : Timeout) (v : World K)
      → Q v
      → Q (queue_event k p queue e t v).1
  unfolding queue_event
  queue-Quiet queue e t v q =
      let put =
        Quiet-trans L p obs cell w v (record v { kernel = (k.msgq_put queue e t v.kernel).1 }) q
          (put-Quiet L p obs cell queue e t v) in
      elim (Bool-cases (is_zero (k.msgq_put queue e t v.kernel).0)) [
        | inl ok ↦ rw ok put
        | inr err ↦ rw err (release-Quiet e.ops e.ptr _ put)
      ]

  hand_over-Quiet :
      (sink h x : Ptr) (ops : Option Ptr) (t : Timeout) (v : World K)
      → Q v
      → Q (hand_over k p sink h x ops t v).1
  unfolding hand_over
  hand_over-Quiet sink h x ops t v q = elim (Option-cases (p.sink_at sink).queue) [
    | inl e ↦
        rw (e, hand_over)
          (release-Quiet ops (some x) _ (after-call h (some x) (p.sink_at sink).user_data v q))
    | inr (queue, e) ↦ rw (e, hand_over) (queue-Quiet queue _ t v q)
  ]

  deliver-Quiet :
      (sink : Option Ptr) (x : Ptr) (ops : Option Ptr) (t : Timeout) (v : World K)
      → Q v
      → Q (sink_deliver k p sink (some x) ops t v).1
  unfolding sink_deliver deliver_checked
  deliver-Quiet none x ops t v q = q
  deliver-Quiet (some sink) x ops t v q = elim (Option-cases (p.sink_at sink).handler) [
    | inl e ↦ rw (e, sink_deliver) q
    | inr (h, e) ↦ elim (Bool-cases (is_neg (take_ref p ops x sink v).0)) [
      | inl bad ↦ rw (e, sink_deliver, bad) (take-Quiet ops x sink v q)
      | inr ok ↦
          rw (e, sink_deliver, ok) (hand_over-Quiet sink h x ops t _ (take-Quiet ops x sink v q))
    ]
  ]

  emit-Quiet :
      (cs : List Connection) (ops : Option Ptr) (x deadline d : ℕ) (v : World K)
      → Q v
      → Q (emit_from k p cs ops x deadline d v).1
  unfolding emit_from
  emit-Quiet [] ops x deadline d v q = q
  emit-Quiet (c ∷ cs) ops x deadline d v q =
      let rest =
        emit-Quiet cs ops x deadline _ _
          (deliver-Quiet c.sink x ops (k.timepoint_timeout deadline v.kernel) v q) in
      elim (Bool-cases (is_none ops && ltb 0 d)) [ inl e ↦ rw e q | inr e ↦ rw e rest ]

  -- If the handlers spare an observable, so does its notification.
  pub notify-Quiet : Q (notify k p obs w).1
  unfolding notify notify_owner weave_sink_send weave_source_emit
  notify-Quiet =
      let owner = (w.observables obs).owner_sink in
      elim (Bool-cases (is_none (p.sink_at owner).handler)) [
        | inl e ↦ rw e (emit-Quiet _ _ obs _ 0 w (Quiet-refl L p obs cell w))
        | inr e ↦ rw e (
            emit-Quiet _ _ obs _ 0 _
              (deliver-Quiet (some owner) obs none no_wait w (Quiet-refl L p obs cell w)))
      ]
