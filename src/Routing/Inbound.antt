-- ===== src/Routing/Inbound.antt =====
-- A packet from the network in protocol.c: the header restores the metadata, the payload goes on.
use zephyr_io.Prelude.{
  ℕ, ◌+◌, ◌%◌, ◌^◌, ◌≡◌, ◌<◌, ◌∙◌, refl, ap, some, List, ◌++◌, false, arith, length, drop,
  length-append, inl, inr, Option-cases, ltb,
}
use zephyr_io.World.{Ptr, World}
use zephyr_io.Kernel.{no_wait, Kernel, Program}
use zephyr_io.Packet.{
  NetBuf, PacketMetadata, put_meta, set_field, weave_packet_get_meta, weave_packet_set_id,
  weave_packet_set_counter, weave_packet_set_timestamp_ticks, weave_packet_send_ref,
}
use zephyr_io.Packet.Access.{Memory, shown, setters-IsStored}
use zephyr_io.Routing.Protocol.{PacketHeader, BufData, header_bytes, le_bytes, inbound_handler}
use zephyr_io.Routing.Header.{HeaderInRange, header_of-header_bytes}

-- The data of a buffer and its user data are apart; pulling drops bytes in front.
pub record Apart {K : Type 0} (nb : NetBuf K) (bd : BufData K) : Type 0 where
  pub data_stays :
      (b c : Ptr) (bs : List ℕ) (s : K) → bd.bytes b (nb.set_user_data c bs s) ≡ bd.bytes b s
  pub pulled : (b : Ptr) (n : ℕ) (s : K) → bd.bytes b (bd.pull b n s) ≡ drop n (bd.bytes b s)
  pub user_data_stays :
      (b c : Ptr) (n : ℕ) (s : K) → nb.user_data c (bd.pull b n s) ≡ nb.user_data c s
  pub size_stays :
      (b c : Ptr) (n : ℕ) (s : K) → nb.user_data_size c (bd.pull b n s) ≡ nb.user_data_size c s

-- The metadata of a packet with this header; its client and the ticks are given.
abbrev pub restored : PacketMetadata → PacketHeader → ℕ → PacketMetadata
restored m h ticks = record m { packet_id = h.packet_id; counter = h.counter; ticks = ticks }

shown-some : (m : PacketMetadata) → 0 < m.packet_id → shown m ≡ some m
shown-some m h = ground arith

length-header_bytes : (h : PacketHeader) → length (header_bytes h) ≡ 14
unfolding header_bytes le_bytes
length-header_bytes h = refl

drop-header_bytes :
    (h : PacketHeader) (payload : List ℕ) → drop 14 (header_bytes h ++ payload) ≡ payload
unfolding header_bytes le_bytes
drop-header_bytes h payload = refl

long_enough : (n : ℕ) → ltb (14 + n) 14 ≡ false
long_enough n = ground arith

module _ {K : Type 0} {nb : NetBuf K} {bd : BufData K} (mem : Memory nb) (a : Apart nb bd) where
  set_field-bytes :
      (change : PacketMetadata → PacketMetadata) (b : Ptr) (s : K)
      → bd.bytes b (set_field nb change (some b) s).1 ≡ bd.bytes b s
  unfolding set_field put_meta
  set_field-bytes change b s = elim (Option-cases (weave_packet_get_meta nb (some b) s)) [
    | inl e ↦ rw (e, set_field) refl
    | inr (m, e) ↦ rw (e, set_field) (a.data_stays b b _ s)
  ]

  setters-bytes :
      (b : Ptr) (n : ℕ) (s : K)
      → (bd.bytes b (weave_packet_set_id nb (some b) n s).1 ≡ bd.bytes b s)
        × (bd.bytes b (weave_packet_set_counter nb (some b) n s).1 ≡ bd.bytes b s)
        × (bd.bytes b (weave_packet_set_timestamp_ticks nb (some b) n s).1 ≡ bd.bytes b s)
  unfolding weave_packet_set_id weave_packet_set_counter weave_packet_set_timestamp_ticks
  setters-bytes b n s = (
    set_field-bytes (λ m. record m { packet_id = n }) b s,
    set_field-bytes (λ m. record m { counter = n }) b s,
    set_field-bytes (λ m. record m { ticks = n }) b s,
  )

  pull-meta :
      (b : Ptr) (n : ℕ) (s : K)
      → weave_packet_get_meta nb (some b) (bd.pull b n s) ≡ weave_packet_get_meta nb (some b) s
  unfolding weave_packet_get_meta
  pull-meta b n s = rw (a.user_data_stays b b n s, a.size_stays b b n s) refl

  -- The state in which the handler sends the packet on.
  abbrev tagged : Ptr → PacketHeader → K → K
  tagged b h s =
      let s1 = (weave_packet_set_id nb (some b) h.packet_id s).1 in
      let s2 = (weave_packet_set_counter nb (some b) h.counter s1).1 in
      (weave_packet_set_timestamp_ticks nb (some b) (bd.ns_to_ticks h.timestamp_ns % 2 ^ 32) s2).1

  tagged-bytes : (b : Ptr) (h : PacketHeader) (s : K) → bd.bytes b (tagged b h s) ≡ bd.bytes b s
  tagged-bytes b h s =
      let s1 = (weave_packet_set_id nb (some b) h.packet_id s).1 in
      let s2 = (weave_packet_set_counter nb (some b) h.counter s1).1 in
      (setters-bytes b (bd.ns_to_ticks h.timestamp_ns % 2 ^ 32) s2).2
      ∙ (setters-bytes b h.counter s1).1
      ∙ (setters-bytes b h.packet_id s).0

  tagged-meta :
      (b : Ptr) (h : PacketHeader) (s : K) (m : PacketMetadata)
      → weave_packet_get_meta nb (some b) s ≡ some m
      → HeaderInRange h
      → 0 < h.packet_id
      → weave_packet_get_meta nb (some b) (tagged b h s)
        ≡ some (restored m h (bd.ns_to_ticks h.timestamp_ns % 2 ^ 32))
  tagged-meta b h s m e r pos_id =
      let ticks = bd.ns_to_ticks h.timestamp_ns % 2 ^ 32 in
      let lt : ticks < 4294967296 = omega arith in
      let z : 0 < 256 = omega arith in
      let z2 : 0 < 65536 = omega arith in
      let z3 : 0 < 4294967296 = omega arith in
      let s1 = (weave_packet_set_id nb (some b) h.packet_id s).1 in
      let s2 = (weave_packet_set_counter nb (some b) h.counter s1).1 in
      let m1 : PacketMetadata = record m { packet_id = h.packet_id } in
      let m2 : PacketMetadata = record m1 { counter = h.counter } in
      let e1 =
        (setters-IsStored mem b s m h.packet_id 0 0 0 e r.packet_id z z2 z3).0.meta
        ∙ shown-some m1 pos_id in
      let e2 =
        (setters-IsStored mem b s1 m1 0 0 h.counter 0 e1 z z r.counter z3).2.meta
        ∙ shown-some m2 pos_id in
      (setters-IsStored mem b s2 m2 0 0 0 ticks e2 z z z2 lt).3.meta
      ∙ shown-some (restored m h ticks) pos_id

  module _ (k : Kernel K) (p : Program K) where
    -- A packet with metadata, from a source of the network, starts with the header of a packet with
    -- an id that is not 0. The handler sends it on with the header's id and counter, the header's
    -- time in ticks modulo 2^32, the client that it had, and the payload behind the header.
    pub inbound_handler-restores :
        (source b : Ptr) (h : PacketHeader) (payload : List ℕ) (m : PacketMetadata) (w : World K)
        → weave_packet_get_meta nb (some b) w.kernel ≡ some m
        → HeaderInRange h
        → 0 < h.packet_id
        → bd.bytes b w.kernel ≡ header_bytes h ++ payload
        → (s : K) × (inbound_handler k nb bd p source b w
            ≡ (weave_packet_send_ref k nb p
                (some source)
                (some b)
                no_wait
                (record w { kernel = s })).1)
          × (weave_packet_get_meta nb (some b) s
              ≡ some (restored m h (bd.ns_to_ticks h.timestamp_ns % 2 ^ 32)))
          × (bd.bytes b s ≡ payload)
    unfolding inbound_handler
    inbound_handler-restores source b h payload m w e r pos_id data_ =
        let t = tagged b h w.kernel in
        let l : length (header_bytes h ++ payload) ≡ 14 + length payload =
          length-append (header_bytes h) payload
          ∙ ap (λ n. n + length payload) (length-header_bytes h) in
        let long : ltb (length (header_bytes h ++ payload)) 14 ≡ false =
          ap (λ n. ltb n 14) l ∙ long_enough (length payload) in
        (
          bd.pull b 14 t,
          rw (data_, header_of-header_bytes h payload r, long) refl,
          pull-meta b 14 t ∙ tagged-meta b h w.kernel m e r pos_id,
          a.pulled b 14 t
              ∙ ap (drop 14) (tagged-bytes b h w.kernel ∙ data_)
              ∙ drop-header_bytes h payload,
        )
