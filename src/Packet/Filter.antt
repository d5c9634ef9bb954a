-- ===== src/Packet/Filter.antt =====
-- The reference operation of weave_packet_ops: which packets a sink accepts.
use zephyr_io.Prelude.{
  Option-cases, Bool-cases, sym, ◌∙◌, ◌≡◌, ◌≢◌, ◌⊎◌, inl, inr, refl, ap, Option, none, some, true,
  false, pos, neg, eacces, arith, ◌==◌,
}
use zephyr_io.World.{Ptr, World}
use zephyr_io.Kernel.{Program}
use zephyr_io.Packet.{
  NetBuf, PacketMetadata, PacketSinkCtx, weave_packet_get_meta, filtered_out, turned_away, ctx_of,
  packet_buf_ref,
}

turned_away-none : (ctx : PacketSinkCtx) → ¬ (turned_away ctx none ≡ true)
unfolding turned_away
turned_away-none ctx h = absurd (ground arith)

turned_away-some :
    (ctx : PacketSinkCtx) (m : PacketMetadata)
    → turned_away ctx (some m) ≡ true
    → (ctx.filter ≢ 255) × (m.packet_id ≢ ctx.filter) × (m.packet_id ≢ 255)
unfolding turned_away
turned_away-some ctx m h = ((λ e. ground arith), (λ e. ground arith), (λ e. ground arith))

true_ne_false : ¬ (true ≡ false)
true_ne_false h = ground arith

module _ {K : Type 0} (nb : NetBuf K) where
  -- The sink wants one kind of packet, and the packet says that it is of another.
  pub record Mismatch (ctx : Option PacketSinkCtx) (buf : Ptr) (s : K) : Type 0 where
    pub c : PacketSinkCtx
    pub has_ctx : ctx ≡ some c
    pub wants : c.filter ≢ 255
    pub m : PacketMetadata
    pub has_meta : weave_packet_get_meta nb (some buf) s ≡ some m
    pub differs : m.packet_id ≢ c.filter
    pub tagged : m.packet_id ≢ 255

  mismatch→filtered :
      (ctx : Option PacketSinkCtx) (buf : Ptr) (s : K)
      → Mismatch ctx buf s
      → filtered_out nb ctx buf s ≡ true
  unfolding filtered_out
  mismatch→filtered ctx buf s x =
      let e1 : (x.c.filter == 255) ≡ false = ground (arith, x.wants) in
      let e2 : (x.m.packet_id == x.c.filter) ≡ false = ground (arith, x.differs) in
      let e3 : (x.m.packet_id == 255) ≡ false = ground (arith, x.tagged) in
      rw (x.has_ctx, filtered_out, x.has_meta, turned_away, e1, e2, e3) refl

  filtered→mismatch :
      (ctx : Option PacketSinkCtx) (buf : Ptr) (s : K)
      → filtered_out nb ctx buf s ≡ true
      → Mismatch ctx buf s
  unfolding filtered_out
  filtered→mismatch none buf s h = absurd (ground arith)
  filtered→mismatch (some ctx) buf s h =
      elim (Option-cases (weave_packet_get_meta nb (some buf) s)) [
        | inl e ↦ absurd (turned_away-none ctx (sym (ap (turned_away ctx) e) ∙ h))
        | inr (m, e) ↦
            let (h1, h2, h3) = turned_away-some ctx m (sym (ap (turned_away ctx) e) ∙ h) in
            record {
              c = ctx;
              has_ctx = refl;
              wants = h1;
              m = m;
              has_meta = e;
              differs = h2;
              tagged = h3;
            }
      ]

module _ {K : Type 0} (nb : NetBuf K) (p : Program K) (ctx_at : Ptr → PacketSinkCtx) where
  -- The ops of a packet source on a sink: exactly if the sink wants one kind of packet and the valid
  -- metadata of the buffer tells another that is not ID_ANY, taking a reference returns -EACCES and
  -- changes nothing; in all other cases it returns 0 and has taken one reference.
  pub packet_buf_ref-filters :
      (buf sink : Ptr) (w : World K)
      → (Mismatch nb (ctx_of nb p ctx_at sink) buf w.kernel
          × (packet_buf_ref nb p ctx_at buf sink w ≡ (neg eacces, w)))
        ⊎ (¬ Mismatch nb (ctx_of nb p ctx_at sink) buf w.kernel
            × (packet_buf_ref nb p ctx_at buf sink w
                ≡ (pos 0, record w { kernel = nb.net_buf_ref buf w.kernel })))
  unfolding packet_buf_ref
  packet_buf_ref-filters buf sink w =
      elim (Bool-cases (filtered_out nb (ctx_of nb p ctx_at sink) buf w.kernel)) [
        | inl e ↦ inl (filtered→mismatch nb (ctx_of nb p ctx_at sink) buf w.kernel e, rw e refl)
        | inr e ↦ inr (
          (λ x. absurd (
              true_ne_false
                (sym (mismatch→filtered nb (ctx_of nb p ctx_at sink) buf w.kernel x) ∙ e))),
          rw e refl,
        )
      ]
