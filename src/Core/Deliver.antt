-- ===== src/Core/Deliver.antt =====
-- `sink_deliver` of src/core.c, branch by branch.
use zephyr_io.Prelude.{◌≡◌, refl, Option, none, some, true, false, pos, neg, is_neg, einval}
use zephyr_io.World.{Ptr, World}
use zephyr_io.Kernel.{Timeout, Kernel, Program}
use zephyr_io.Core.{
  ref_of, take_ref, release_ref, queue_event, hand_over, deliver_checked, sink_deliver,
}

module _ {K : Type 0} (k : Kernel K) (p : Program K) where
  pub take_ref-none :
      (ops : Option Ptr) (x s : Ptr) (w : World K)
      → ref_of p ops ≡ none
      → take_ref p ops x s w ≡ (pos 0, w)
  unfolding take_ref
  take_ref-none ops x s w e = rw (e, take_ref)

  module _ (s h x : Ptr) (ops : Option Ptr) (t : Timeout) (w : World K)
      (has_handler : (p.sink_at s).handler ≡ some h) where
    checked : sink_deliver k p (some s) (some x) ops t w ≡ deliver_checked k p s h x ops t w
    unfolding sink_deliver
    checked = rw (has_handler, sink_deliver)

    pub sink_deliver-refused :
        is_neg (take_ref p ops x s w).0 ≡ true
        → sink_deliver k p (some s) (some x) ops t w ≡ take_ref p ops x s w
    unfolding deliver_checked
    sink_deliver-refused e = rw (checked, e)

    handed_over :
        is_neg (take_ref p ops x s w).0 ≡ false
        → sink_deliver k p (some s) (some x) ops t w
          ≡ hand_over k p s h x ops t (take_ref p ops x s w).1
    unfolding deliver_checked
    handed_over e = rw (checked, e)

    pub sink_deliver-immediate :
        is_neg (take_ref p ops x s w).0 ≡ false
        → (p.sink_at s).queue ≡ none
        → sink_deliver k p (some s) (some x) ops t w ≡ (
          pos 0,
          release_ref p ops
              (some x)
              (p.call h (some x) (p.sink_at s).user_data (take_ref p ops x s w).1),
        )
    unfolding hand_over
    sink_deliver-immediate e i = rw (handed_over e, i, hand_over)

    pub sink_deliver-queued :
        (q : Ptr)
        → is_neg (take_ref p ops x s w).0 ≡ false
        → (p.sink_at s).queue ≡ some q
        → sink_deliver k p (some s) (some x) ops t w
          ≡ queue_event k p q
              (record { sink = some s; ptr = some x; ops = ops })
              t
              (take_ref p ops x s w).1
    unfolding hand_over
    sink_deliver-queued q e i = rw (handed_over e, i, hand_over)

  pub sink_deliver-unhandled :
      (s : Ptr) (ptr ops : Option Ptr) (t : Timeout) (w : World K)
      → (p.sink_at s).handler ≡ none
      → sink_deliver k p (some s) ptr ops t w ≡ (neg einval, w)
  unfolding sink_deliver
  sink_deliver-unhandled s none ops t w e = refl
  sink_deliver-unhandled s (some x) ops t w e = rw (e, sink_deliver)
