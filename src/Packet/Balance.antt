-- ===== src/Packet/Balance.antt =====
-- The references of a packet over weave_packet_send and weave_packet_send_ref.
use zephyr_io.Prelude.{ℕ, suc, ◌≡◌, some, List}
use mathlib.Core.Path.{subst}
use zephyr_io.World.{Ptr, World}
use zephyr_io.Kernel.{Timeout, Kernel, Program, Lawful}
use zephyr_io.Core.{weave_source_emit}
use zephyr_io.Core.Balance.{Counted, Inv, weave_source_emit-Inv}
use zephyr_io.Packet.{NetBuf, packet_buf_unref, weave_packet_send, weave_packet_send_ref}

module _ {K : Type 0} {k : Kernel K} {L : Lawful k} {p : Program K} {qs : List Ptr} {x o f g : Ptr}
    {refs : World K → ℕ} (c : Counted L p qs x o f g refs) (nb : NetBuf K)
    (unrefs : (w : World K) → p.call_unref g (some x) w ≡ packet_buf_unref nb (some x) w) where
  -- A counted packet sent from a source with the ops of packets, whatever becomes of each delivery:
  -- weave_packet_send uses up the reference of its caller, weave_packet_send_ref leaves it; the
  -- count stays what others hold and one for each delivery that waits in a queue.
  pub send-Inv :
      (source : Ptr) (t : Timeout) (w : World K) (n : ℕ)
      → (w.sources source).ops ≡ some o
      → Inv L p qs x o f g refs (suc n) w
      → Inv L p qs x o f g refs n (weave_packet_send k nb p (some source) (some x) t w).1
        × Inv L p qs x o f g refs
            (suc n)
            (weave_packet_send_ref k nb p (some source) (some x) t w).1
  unfolding weave_packet_send weave_packet_send_ref packet_buf_unref
  send-Inv source t w n e inv =
      let sent = weave_source_emit-Inv c source t w (suc n) e inv in
      let w1 = (weave_source_emit k p (some source) (some x) t w).1 in
      (subst (λ v. Inv L p qs x o f g refs n v) (unrefs w1) (c.gives_back w1 n sent), sent)
