-- ===== src/Routing/Outbound.antt =====
-- A packet that protocol.c sends out, and the same packet where it comes in.
use zephyr_io.Prelude.{
  ℕ, ◌%◌, ◌^◌, ◌≡◌, ◌∙◌, ◌<◌, refl, none, some, List, [], ◌∷◌, ◌++◌, true, arith,
}
use zephyr_io.World.{Ptr, World}
use zephyr_io.Kernel.{no_wait, Kernel, Program}
use zephyr_io.Packet.{
  NetBuf, PacketMetadata, PacketPool, get_field, weave_packet_alloc, weave_packet_get_meta,
  weave_packet_get_id, weave_packet_get_counter, weave_packet_get_timestamp_ticks,
  weave_packet_send, weave_packet_send_ref,
}
use zephyr_io.Packet.Meta.{InRange}
use zephyr_io.Packet.Access.{Memory, meta-InRange}
use zephyr_io.Routing.Protocol.{
  PacketHeader, BufData, header_bytes, header_for, chain_and_send, outbound_handler,
  inbound_handler,
}
use zephyr_io.Routing.Chained.{
  Chains, Linked, chain_bytes, NoneIs, header-Linked, header-bytes, chain_and_send-eq,
}
use zephyr_io.Routing.Header.{HeaderInRange}
use zephyr_io.Routing.Inbound.{Apart, inbound_handler-restores}

-- The header for a packet with this metadata and so many bytes.
abbrev pub header_with : {K : Type 0} → BufData K → PacketMetadata → ℕ → PacketHeader
header_with bd m len = record {
  packet_id = m.packet_id;
  reserved = 0;
  counter = m.counter;
  content_length = len % 2 ^ 16;
  timestamp_ns = bd.cyc_to_ns (bd.ticks_to_cyc m.ticks);
}

module _ {K : Type 0} (nb : NetBuf K) (bd : BufData K) where
  get_field-some :
      (field : PacketMetadata → ℕ) (b : Ptr) (s : K) (m : PacketMetadata)
      → weave_packet_get_meta nb (some b) s ≡ some m
      → get_field nb field (some b) true s ≡ some (field m)
  unfolding get_field
  get_field-some field b s m h = rw (h, get_field) refl

  getters :
      (b : Ptr) (s : K) (m : PacketMetadata)
      → weave_packet_get_meta nb (some b) s ≡ some m
      → (weave_packet_get_id nb (some b) true s ≡ some m.packet_id)
        × (weave_packet_get_counter nb (some b) true s ≡ some m.counter)
        × (weave_packet_get_timestamp_ticks nb (some b) true s ≡ some m.ticks)
  unfolding weave_packet_get_id weave_packet_get_counter weave_packet_get_timestamp_ticks
  getters b s m h = (
    get_field-some (λ m. m.packet_id) b s m h,
    get_field-some (λ m. m.counter) b s m h,
    get_field-some (λ m. m.ticks) b s m h,
  )

  module _ (k : Kernel K) (p : Program K) where
    header_for-header_with :
        (b : Ptr) (s : K) (m : PacketMetadata)
        → weave_packet_get_meta nb (some b) s ≡ some m
        → header_for k nb bd p b m.packet_id s ≡ header_with bd m (bd.frags_len b s)
    unfolding header_for
    header_for-header_with b s m h = let (g1, g2, g3) = getters b s m h in rw (g2, g3) refl

    outbound_eq :
        (pool : PacketPool) (source b hb : Ptr) (m : PacketMetadata) (w : World K)
        → (weave_packet_alloc nb (some pool) no_wait w.kernel).0 ≡ some hb
        → weave_packet_get_meta nb (some b) (weave_packet_alloc nb (some pool) no_wait w.kernel).1
          ≡ some m
        → let s1 = (weave_packet_alloc nb (some pool) no_wait w.kernel).1 in
          outbound_handler k nb bd p pool source b w
          ≡ chain_and_send k nb bd p source hb b (record w {
            kernel = bd.add hb (header_bytes (header_with bd m (bd.frags_len b s1))) s1;
          })
    unfolding outbound_handler
    outbound_eq pool source b hb m w h1 h2 =
        let s1 = (weave_packet_alloc nb (some pool) no_wait w.kernel).1 in
        rw
          (
            h1,
            outbound_handler,
            (getters b s1 m h2).0,
            outbound_handler,
            header_for-header_with b s1 m h2,
          )
          refl

header_with-HeaderInRange :
    {K : Type 0} (bd : BufData K) (m : PacketMetadata) (len : ℕ)
    → InRange m
    → bd.cyc_to_ns (bd.ticks_to_cyc m.ticks) < 2 ^ 64
    → HeaderInRange (header_with bd m len)
header_with-HeaderInRange bd m len r lt = record {
  packet_id = r.packet_id;
  reserved = omega arith;
  counter = r.counter;
  content_length = omega arith;
  timestamp_ns = lt;
}

module _ {K : Type 0} {nb : NetBuf K} {bd : BufData K} (mem : Memory nb) (a : Apart nb bd)
    (chains : Chains nb bd) (k : Kernel K) (p : Program K) where
  -- The state in which the packet of buffers b, rest goes out, from the state after the allocation of
  -- the header's buffer.
  abbrev pub departing : Ptr → Ptr → PacketMetadata → K → K
  departing hb b m s =
      bd.frag_add hb b
        (nb.net_buf_ref b (bd.add hb (header_bytes (header_with bd m (bd.frags_len b s))) s))

  -- A packet with valid metadata, an id that is not 0 and a time that has at most 64 bits in
  -- nanoseconds goes out when an empty buffer of its own is free for the header. It is sent behind
  -- the header, with a reference more on its first buffer: the chain is the header's buffer and
  -- then the packet's buffers, and its bytes are the header with the packet's id, counter, length
  -- by net_buf_frags_len modulo 2^16 and time, and then the packet's bytes. If these bytes arrive
  -- in a buffer of the network that has valid metadata, it is sent on with the packet's id and
  -- counter, the client that the buffer had, the packet's time, converted to nanoseconds and back
  -- to ticks, modulo 2^32, and the packet's bytes.
  pub inbound_handler-outbound_handler :
      (pool : PacketPool) (source b hb : Ptr) (rest : List Ptr) (m : PacketMetadata) (w : World K)
      (source2 b2 : Ptr) (m2 : PacketMetadata) (w2 : World K)
      → (weave_packet_alloc nb (some pool) no_wait w.kernel).0 ≡ some hb
      → let s1 = (weave_packet_alloc nb (some pool) no_wait w.kernel).1 in
        let sent = departing hb b m s1 in
        weave_packet_get_meta nb (some b) s1 ≡ some m
        → bd.frags hb s1 ≡ none
        → bd.bytes hb s1 ≡ []
        → Linked bd s1 (some b) (b ∷ rest)
        → NoneIs hb (b ∷ rest)
        → 0 < m.packet_id
        → bd.cyc_to_ns (bd.ticks_to_cyc m.ticks) < 2 ^ 64
        → weave_packet_get_meta nb (some b2) w2.kernel ≡ some m2
        → bd.bytes b2 w2.kernel ≡ chain_bytes bd sent (hb ∷ b ∷ rest)
        → (outbound_handler k nb bd p pool source b w
            ≡ (weave_packet_send k nb p
                (some source)
                (some hb)
                no_wait
                (record w { kernel = sent })).1)
          × Linked bd sent (some hb) (hb ∷ b ∷ rest)
          × (chain_bytes bd sent (hb ∷ b ∷ rest)
              ≡ header_bytes (header_with bd m (bd.frags_len b s1)) ++ chain_bytes bd s1 (b ∷ rest))
          × (s : K) × (inbound_handler k nb bd p source2 b2 w2
              ≡ (weave_packet_send_ref k nb p
                  (some source2)
                  (some b2)
                  no_wait
                  (record w2 { kernel = s })).1)
          × (weave_packet_get_meta nb (some b2) s
              ≡ some (record m2 {
                packet_id = m.packet_id;
                counter = m.counter;
                ticks = bd.ns_to_ticks (bd.cyc_to_ns (bd.ticks_to_cyc m.ticks)) % 2 ^ 32;
              }))
          × (bd.bytes b2 s ≡ chain_bytes bd s1 (b ∷ rest))
  inbound_handler-outbound_handler pool source b hb rest m w source2 b2 m2 w2 h1 h2 alone empty link
        apart pos_id lt h3 data_ =
      let s1 = (weave_packet_alloc nb (some pool) no_wait w.kernel).1 in
      let h = header_with bd m (bd.frags_len b s1) in
      let r = header_with-HeaderInRange bd m (bd.frags_len b s1) (meta-InRange mem b s1 m h2) lt in
      let bytes = header-bytes chains hb (header_bytes h) b s1 alone rest apart empty in
      let restores =
        inbound_handler-restores mem a k p source2 b2 h (chain_bytes bd s1 (b ∷ rest)) m2 w2 h3 r
          pos_id (data_ ∙ bytes) in
      (
        outbound_eq nb bd k p pool source b hb m w h1 h2
            ∙ chain_and_send-eq chains hb (header_bytes h) b s1 alone k p source rest w apart link,
        header-Linked chains hb (header_bytes h) b s1 alone rest apart link,
        bytes,
        restores.0,
        restores.1,
        restores.2,
        restores.3,
      )
