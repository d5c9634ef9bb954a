-- ===== src/Core/Balance.antt =====
-- Reference counting through src/core.c: what a delivery takes, its end gives back.
use zephyr_io.Prelude.{
  ℕ, zero, suc, ◌+◌, ◌≡◌, refl, sym, ap, inl, inr, Option, none, some, List, [], ◌∷◌, ◌++◌, true,
  false, ◌&&◌, ℤ, pos, is_neg, is_zero, is_zero→eq, arith, same, if◌then◌else◌, Bool-cases,
  Option-cases, same→eq, &&-true,
}
use mathlib.Core.Path.{subst, ◌∙◌}
use zephyr_io.World.{Ptr, Connection, Event, World}
use zephyr_io.Kernel.{Timeout, no_wait, Kernel, Program, Lawful}
use zephyr_io.Core.{
  release_ref, take_ref, queue_event, hand_over, deliver_checked, sink_deliver, emit_from,
  weave_source_emit, handler_of, process_event, process_from, weave_process_messages,
}
use zephyr_io.Core.Loop.{process_from-nil, process_from-cons}
use zephyr_io.Core.Pending.{
  occurrences, owed, handled, owed_all, owed_all-snoc, owed_all-cons, pending, pending-set_queue,
}

-- What a payload `x` and its ops `o` must be for its references to be counted by `refs`: a
-- reference count that `ref` and `unref` move by one, and that nobody else moves but in balance
-- with the deliveries of `x` that wait in the queues `qs`.
pub record Counted {K : Type 0} {k : Kernel K} (L : Lawful k) (p : Program K) (qs : List Ptr)
    (x o f g : Ptr) (refs : World K → ℕ) : Type 0 where
  pub is_ref : (p.ops_at o).ref ≡ some f
  pub is_unref : (p.ops_at o).unref ≡ some g
  pub one_queue : (s q : Ptr) → (p.sink_at s).queue ≡ some q → occurrences q qs ≡ 1
  pub put_neutral :
      (q : Ptr) (e : Event) (t : Timeout) (w : World K)
      → refs (record w { kernel = (k.msgq_put q e t w.kernel).1 }) ≡ refs w
  pub get_neutral :
      (q : Ptr) (t : Timeout) (w : World K)
      → refs (record w { kernel = (k.msgq_get q t w.kernel).1 }) ≡ refs w
  pub takes :
      (s : Ptr) (w : World K) (n : ℕ)
      → is_neg (p.call_ref f x s w).0 ≡ false
      → refs w ≡ n + pending p x o qs (L.view w.kernel)
      → refs (p.call_ref f x s w).1
        ≡ suc n + pending p x o qs (L.view (p.call_ref f x s w).1.kernel)
  pub refuses :
      (s : Ptr) (w : World K) (n : ℕ)
      → is_neg (p.call_ref f x s w).0 ≡ true
      → refs w ≡ n + pending p x o qs (L.view w.kernel)
      → refs (p.call_ref f x s w).1 ≡ n + pending p x o qs (L.view (p.call_ref f x s w).1.kernel)
  pub gives_back :
      (w : World K) (n : ℕ)
      → refs w ≡ suc n + pending p x o qs (L.view w.kernel)
      → refs (p.call_unref g (some x) w)
        ≡ n + pending p x o qs (L.view (p.call_unref g (some x) w).kernel)
  pub others_neutral :
      (ops ptr : Option Ptr) (w : World K) (n : ℕ)
      → same ptr (some x) && same ops (some o) ≡ false
      → refs w ≡ n + pending p x o qs (L.view w.kernel)
      → refs (release_ref p ops ptr w)
        ≡ n + pending p x o qs (L.view (release_ref p ops ptr w).kernel)
  pub handlers_balanced :
      (h : Ptr) (ptr ud : Option Ptr) (w : World K) (n : ℕ)
      → refs w ≡ n + pending p x o qs (L.view w.kernel)
      → refs (p.call h ptr ud w) ≡ n + pending p x o qs (L.view (p.call h ptr ud w).kernel)

module _ {K : Type 0} {k : Kernel K} (L : Lawful k) (p : Program K) (qs : List Ptr) (x o f g : Ptr)
    (refs : World K → ℕ) where
  -- The reference count is `held` by others, and one for each delivery that waits.
  abbrev pub Inv : ℕ → World K → Type 0
  Inv held w = refs w ≡ held + pending p x o qs (L.view w.kernel)

abbrev pub world_of : {K : Type 0} → World K → Option (ℤ × World K) → World K
world_of w none = w
world_of w (some (r, w')) = w'

module _ {K : Type 0} {k : Kernel K} {L : Lawful k} {p : Program K} {qs : List Ptr} {x o f g : Ptr}
    {refs : World K → ℕ} (c : Counted L p qs x o f g refs) where
  abbrev I : ℕ → World K → Type 0
  I = Inv L p qs x o f g refs

  release-Inv : (w : World K) (n : ℕ) → I (suc n) w → I n (release_ref p (some o) (some x) w)
  unfolding release_ref
  release-Inv w n h = rw (c.is_unref, release_ref) (c.gives_back w n h)

  take-eq : (s : Ptr) (w : World K) → take_ref p (some o) x s w ≡ p.call_ref f x s w
  unfolding take_ref
  take-eq s w = rw (c.is_ref, take_ref)

  put-Inv :
      (s q : Ptr) (e : Event) (t : Timeout) (w : World K) (n : ℕ)
      → (p.sink_at s).queue ≡ some q
      → owed p x o e ≡ 1
      → I (suc n) w
      → (k.msgq_put q e t w.kernel).0 ≡ pos 0
      → I n (record w { kernel = (k.msgq_put q e t w.kernel).1 })
  put-Inv s q e t w n hq he h ok = omega (
    arith,
    c.put_neutral q e t w,
    ap (pending p x o qs) (L.put_ok q e t w.kernel ok),
    pending-set_queue p x o qs (L.view w.kernel) q ((L.view w.kernel).queued q ++ e ∷ [])
        (c.one_queue s q hq),
    owed_all-snoc p x o ((L.view w.kernel).queued q) e,
  )

  put_err-Inv :
      (q : Ptr) (e : Event) (t : Timeout) (w : World K) (n : ℕ)
      → I n w
      → is_zero (k.msgq_put q e t w.kernel).0 ≡ false
      → I n (record w { kernel = (k.msgq_put q e t w.kernel).1 })
  put_err-Inv q e t w n h err =
      omega (arith, c.put_neutral q e t w, ap (pending p x o qs) (L.put_err q e t w.kernel err))

  abbrev event_of : Ptr → Event
  event_of s = record { sink = some s; ptr = some x; ops = some o }

  owed-event_of : (s h : Ptr) → (p.sink_at s).handler ≡ some h → owed p x o (event_of s) ≡ 1
  owed-event_of s h e = rw e (ground arith)

  queue_event-Inv :
      (s q h : Ptr) (t : Timeout) (w : World K) (n : ℕ)
      → (p.sink_at s).queue ≡ some q
      → (p.sink_at s).handler ≡ some h
      → I (suc n) w
      → I n (queue_event k p q (event_of s) t w).1
  unfolding queue_event
  queue_event-Inv s q h t w n hq hh inv =
      elim (Bool-cases (is_zero (k.msgq_put q (event_of s) t w.kernel).0)) [
        | inl ok ↦
            rw ok (put-Inv s q (event_of s) t w n hq (owed-event_of s h hh) inv (is_zero→eq _ ok))
        | inr err ↦ rw err (release-Inv _ n (put_err-Inv q (event_of s) t w (suc n) inv err))
      ]

  hand_over-Inv :
      (s h : Ptr) (t : Timeout) (w : World K) (n : ℕ)
      → (p.sink_at s).handler ≡ some h
      → I (suc n) w
      → I n (hand_over k p s h x (some o) t w).1
  unfolding hand_over
  hand_over-Inv s h t w n hh inv = elim (Option-cases (p.sink_at s).queue) [
    | inl e ↦
        rw (e, hand_over)
          (release-Inv _ n (c.handlers_balanced h (some x) (p.sink_at s).user_data w (suc n) inv))
    | inr (q, e) ↦ rw (e, hand_over) (queue_event-Inv s q h t w n e hh inv)
  ]

  deliver_checked-Inv :
      (s h : Ptr) (t : Timeout) (w : World K) (n : ℕ)
      → (p.sink_at s).handler ≡ some h
      → I n w
      → I n (deliver_checked k p s h x (some o) t w).1
  unfolding deliver_checked
  deliver_checked-Inv s h t w n hh inv =
      rw (take-eq s w) (elim (Bool-cases (is_neg (p.call_ref f x s w).0)) [
        | inl neg ↦ rw neg (c.refuses s w n neg inv)
        | inr ok ↦ rw ok (hand_over-Inv s h t _ n hh (c.takes s w n ok inv))
      ])

  -- For a payload whose ops move its reference count by one, and whose handlers and queues keep it
  -- balanced: one delivery, whether refused, immediate, queued or dropped at a full queue, leaves
  -- the count at what others hold and one for each delivery that waits in a queue.
  pub sink_deliver-Inv :
      (sink : Option Ptr) (t : Timeout) (w : World K) (n : ℕ)
      → I n w
      → I n (sink_deliver k p sink (some x) (some o) t w).1
  unfolding sink_deliver
  sink_deliver-Inv none t w n inv = inv
  sink_deliver-Inv (some s) t w n inv = elim (Option-cases (p.sink_at s).handler) [
    | inl missing ↦ rw (missing, sink_deliver) inv
    | inr (h, found) ↦ rw (found, sink_deliver) (deliver_checked-Inv s h t w n found inv)
  ]

  emit_from-Inv :
      (cs : List Connection) (deadline d n : ℕ) (w : World K)
      → I n w
      → I n (emit_from k p cs (some o) x deadline d w).1
  unfolding emit_from
  emit_from-Inv [] deadline d n w inv = inv
  emit_from-Inv (conn ∷ cs) deadline d n w inv =
      emit_from-Inv cs deadline _ n _ (sink_deliver-Inv conn.sink _ w n inv)

  -- For such a payload, an emission from a source with its ops, whatever becomes of each delivery,
  -- leaves the count at what others hold and one for each delivery that waits in a queue.
  pub weave_source_emit-Inv :
      (source : Ptr) (t : Timeout) (w : World K) (n : ℕ)
      → (w.sources source).ops ≡ some o
      → I n w
      → I n (weave_source_emit k p (some source) (some x) t w).1
  unfolding weave_source_emit
  weave_source_emit-Inv source t w n e inv = rw e (emit_from-Inv _ _ 0 n w inv)

  handled-none : (s : Option Ptr) → handler_of p s ≡ none → handled p x o s ≡ false
  unfolding handler_of
  handled-none none h = refl
  handled-none (some s) h = ground arith

  handled-some :
      (s : Option Ptr) {hu : Ptr × Option Ptr} → handler_of p s ≡ some hu → handled p x o s ≡ true
  unfolding handler_of
  handled-some none h = ground arith
  handled-some (some s) h = ground arith

  -- The end of a delivery that is handled: by its own `unref`, or by that of other ops.
  end-Inv :
      (ptr ops : Option Ptr) (w : World K) (n : ℕ)
      → I (n + (if same ptr (some x) && same ops (some o) then 1 else 0)) w
      → I n (release_ref p ops ptr w)
  end-Inv ptr ops w n inv = elim (Bool-cases (same ptr (some x) && same ops (some o))) [
    | inl mine ↦
        let (a, b) = &&-true (same ptr (some x)) (same ops (some o)) mine in
        rw (same→eq ptr (some x) a, same→eq ops (some o) b)
          (release-Inv w n (omega (arith, (rw mine at inv))))
    | inr other ↦ c.others_neutral ops ptr w n other (omega (arith, (rw other at inv)))
  ]

  process_event-Inv :
      (e : Event) (d n : ℕ) (w : World K) → I (n + owed p x o e) w → I n (process_event p e d w).1
  unfolding process_event
  process_event-Inv e d n w inv = elim (Option-cases (handler_of p e.sink)) [
    | inl missing ↦ rw (missing, process_event) (ground (arith, handled-none e.sink missing))
    | inr ((h, ud), found) ↦
        rw (found, process_event)
          (end-Inv e.ptr e.ops (p.call h e.ptr ud w) n
            (c.handlers_balanced h e.ptr ud w _ (ground (arith, handled-some e.sink found))))
  ]

  get-Inv :
      (q : Ptr) (t : Timeout) (w : World K) (n : ℕ) (e : Event) (es : List Event)
      → occurrences q qs ≡ 1
      → (L.view w.kernel).queued q ≡ e ∷ es
      → I n w
      → I (n + owed p x o e) (record w { kernel = (k.msgq_get q t w.kernel).1 })
  get-Inv q t w n e es one hq inv = omega (
    arith,
    c.get_neutral q t w,
    ap (pending p x o qs) (L.get_head q t w.kernel e es hq).1,
    pending-set_queue p x o qs (L.view w.kernel) q es one,
    ap (owed_all p x o) hq,
    owed_all-cons p x o e es,
  )

  process_from-Inv :
      (fuel : ℕ) (q : Ptr) (deadline d n : ℕ) (w : World K) (r : ℤ) (w' : World K)
      → occurrences q qs ≡ 1
      → ((s : K) → k.timepoint_timeout deadline s ≡ no_wait)
      → I n w
      → process_from k p fuel q deadline d w ≡ some (r, w')
      → I n w'
  process_from-Inv zero q deadline d n w r w' one now inv e = unfold process_from in ground arith
  process_from-Inv (suc fuel) q deadline d n w r w' one now inv e =
      go _ refl (λ d' v i. process_from-Inv fuel q deadline d' n v r w' one now i)
    where
      go :
          (es : List Event)
          → (L.view w.kernel).queued q ≡ es
          → ((d' : ℕ) (v : World K)
              → I n v
              → process_from k p fuel q deadline d' v ≡ some (r, w')
              → I n w')
          → I n w'
      go [] hq ih =
          subst (I n) (ap (world_of w) (sym (process_from-nil L p fuel q deadline d w now hq) ∙ e))
            (omega (
              arith,
              c.get_neutral q no_wait w,
              ap (pending p x o qs) (L.get_empty q w.kernel hq).1,
            ))
      go (ev ∷ es) hq ih =
          ih _ _ (process_event-Inv ev d n _ (get-Inv q _ w n ev es one hq inv))
            (sym (process_from-cons L p fuel q deadline d w ev es hq) ∙ e)

  -- For such a payload, a drain that does not wait, and that returns, leaves the count at what
  -- others hold and one for each delivery that still waits.
  pub weave_process_messages-Inv :
      (fuel : ℕ) (q : Ptr) (n : ℕ) (w : World K) (r : ℤ) (w' : World K)
      → occurrences q qs ≡ 1
      → I n w
      → weave_process_messages k p fuel (some q) no_wait w ≡ some (r, w')
      → I n w'
  unfolding weave_process_messages
  weave_process_messages-Inv fuel q n w r w' one inv e =
      process_from-Inv fuel q _ 0 n w r w' one (λ s. L.no_wait_stays w.kernel s) inv e
