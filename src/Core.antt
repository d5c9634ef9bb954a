-- ===== src/Core.antt =====
-- src/core.c: delivery to one sink, fan-out from a source, the queue's consumer, the wiring at boot.
pub mod Pending
pub mod Loop
pub mod Log
pub mod Drain
pub mod Deliver
pub mod Emit
pub mod Wiring
pub mod Balance
pub mod Returned
use zephyr_io.Prelude.{
  ℕ, zero, suc, ◌+◌, ◌<◌, Option, none, some, List, [], ◌∷◌, ◌++◌, Bool, true, false, ◌&&◌, ℤ, pos,
  neg, is_neg, is_zero, einval, enobufs, ltb, is_none, if◌then◌else◌,
}
use zephyr_io.World.{Ptr, Connection, Event, World, update}
use zephyr_io.Kernel.{Timeout, Kernel, Program}

module _ {K : Type 0} (p : Program K) where
  -- `ops && ops->ref`, `ops && ops->unref`
  abbrev pub ref_of : Option Ptr → Option Ptr
  ref_of none = none
  ref_of (some o) = (p.ops_at o).ref

  abbrev pub unref_of : Option Ptr → Option Ptr
  unref_of none = none
  unref_of (some o) = (p.ops_at o).unref

  -- Without a `ref` there is nothing to refuse the delivery.
  unfoldable pub take_ref : Option Ptr → Ptr → Ptr → World K → ℤ × World K
  take_ref ops ptr sink w = elim (ref_of ops) [
    | none ↦ (pos 0, w)
    | some f ↦ p.call_ref f ptr sink w
  ]

  unfoldable pub release_ref : Option Ptr → Option Ptr → World K → World K
  release_ref ops ptr w = elim (unref_of ops) [ none ↦ w | some f ↦ p.call_unref f ptr w ]

  -- The handler behind `sink && sink->handler`, with the user data that goes with it.
  unfoldable pub handler_of : Option Ptr → Option (Ptr × Option Ptr)
  handler_of none = none
  handler_of (some sink) = elim (p.sink_at sink).handler [
    | none ↦ none
    | some handler ↦ some (handler, (p.sink_at sink).user_data)
  ]

  -- The body of the loop of `weave_process_messages`: the new count and the world after the event.
  unfoldable pub process_event : Event → ℕ → World K → ℕ × World K
  process_event event processed w = elim (handler_of event.sink) [
    | none ↦ (processed, w)
    | some (handler, user_data) ↦
        (processed + 1, release_ref event.ops event.ptr (p.call handler event.ptr user_data w))
  ]

module _ {K : Type 0} (k : Kernel K) (p : Program K) where
  -- The queued half of `sink_deliver`.
  unfoldable pub queue_event : Ptr → Event → Timeout → World K → ℤ × World K
  queue_event queue event timeout w =
      let (ret, s) = k.msgq_put queue event timeout w.kernel in
      let w' = record w { kernel = s } in
      if is_zero ret then (pos 0, w') else (neg enobufs, release_ref p event.ops event.ptr w')

  -- `sink_deliver` behind its reference: at once, or through the sink's queue.
  unfoldable pub hand_over : Ptr → Ptr → Ptr → Option Ptr → Timeout → World K → ℤ × World K
  hand_over sink handler ptr ops timeout w = elim (p.sink_at sink).queue [
    | none ↦ (
      pos 0,
      release_ref p ops (some ptr) (p.call handler (some ptr) (p.sink_at sink).user_data w),
    )
    | some queue ↦
        queue_event queue (record { sink = some sink; ptr = some ptr; ops = ops }) timeout w
  ]

  -- `sink_deliver` behind its argument checks.
  unfoldable pub deliver_checked : Ptr → Ptr → Ptr → Option Ptr → Timeout → World K → ℤ × World K
  deliver_checked sink handler ptr ops timeout w =
      let (ret, w') = take_ref p ops ptr sink w in
      if is_neg ret then (ret, w') else hand_over sink handler ptr ops timeout w'

  unfoldable pub sink_deliver :
      Option Ptr → Option Ptr → Option Ptr → Timeout → World K → ℤ × World K
  sink_deliver none ptr ops timeout w = (neg einval, w)
  sink_deliver (some sink) none ops timeout w = (neg einval, w)
  sink_deliver (some sink) (some ptr) ops timeout w = elim (p.sink_at sink).handler [
    | none ↦ (neg einval, w)
    | some handler ↦ deliver_checked sink handler ptr ops timeout w
  ]

  -- The loop of `weave_source_emit` over the connections that are left. It walks the list and reads
  -- the ops as they are at the call; the code reads them anew in each round, which is the same as
  -- long as no handler wires the source anew.
  unfoldable pub emit_from : List Connection → Option Ptr → Ptr → ℕ → ℕ → World K → ℤ × World K
  emit_from [] ops ptr deadline delivered w = (pos delivered, w)
  emit_from (conn ∷ conns) ops ptr deadline delivered w =
      let (ret, w') =
        sink_deliver conn.sink (some ptr) ops (k.timepoint_timeout deadline w.kernel) w in
      let rest =
        emit_from conns ops ptr deadline (if is_zero ret then delivered + 1 else delivered) w' in
      if is_none ops && ltb 0 delivered then (neg einval, w) else rest

  unfoldable pub weave_source_emit : Option Ptr → Option Ptr → Timeout → World K → ℤ × World K
  weave_source_emit none ptr timeout w = (neg einval, w)
  weave_source_emit (some source) none timeout w = (neg einval, w)
  weave_source_emit (some source) (some ptr) timeout w =
      emit_from (w.sources source).sinks (w.sources source).ops ptr
        (k.timepoint_calc timeout w.kernel) 0 w

  unfoldable pub weave_sink_send :
      Option Ptr → Option Ptr → Option Ptr → Timeout → World K → ℤ × World K
  weave_sink_send none ptr ops timeout w = (neg einval, w)
  weave_sink_send (some sink) ptr ops timeout w = sink_deliver (some sink) ptr ops timeout w

  -- The loop, on fuel; `none` means that it still runs when the fuel is spent.
  unfoldable pub process_from : ℕ → Ptr → ℕ → ℕ → World K → Option (ℤ × World K)
  process_from zero queue deadline processed w = none
  process_from (suc fuel) queue deadline processed w =
      let (got, s) = k.msgq_get queue (k.timepoint_timeout deadline w.kernel) w.kernel in
      elim got [
        | none ↦ some (pos processed, record w { kernel = s })
        | some event ↦
            let (n, w') = process_event p event processed (record w { kernel = s }) in
            process_from fuel queue deadline n w'
      ]

  unfoldable pub weave_process_messages : ℕ → Option Ptr → Timeout → World K → Option (ℤ × World K)
  weave_process_messages fuel none timeout w = some (neg einval, w)
  weave_process_messages fuel (some queue) timeout w =
      process_from fuel queue (k.timepoint_calc timeout w.kernel) 0 w

  -- The body of the loop of `weave_init`.
  unfoldable pub wire : Connection → World K → World K
  wire conn w = elim conn.source [
    | none ↦ w
    | some source ↦ elim conn.sink [
      | none ↦ w
      | some sink ↦ record w {
        sources =
            update w.sources source
              (record (w.sources source) { sinks = k.slist_append (w.sources source).sinks conn });
      }
    ]
  ]

  unfoldable pub wire_all : List Connection → World K → World K
  wire_all [] w = w
  wire_all (conn ∷ conns) w = wire_all conns (wire conn w)

  -- The boot hook always returns 0; its count only goes to the log.
  unfoldable pub weave_init : World K → ℤ × World K
  weave_init w = (pos 0, wire_all p.connections w)
