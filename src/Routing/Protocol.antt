-- ===== src/Routing/Protocol.antt =====
-- protocol.c: packets from the sensors get a header in front, packets from the network lose it.
use mathlib.Core.Option
use zephyr_io.Prelude.{
  ℤ, is_zero, ℕ, zero, suc, ◌%◌, ◌/◌, ◌^◌, Option, none, some, List, [], ◌∷◌, ◌++◌, length, drop,
  ltb, ◌==◌, if◌then◌else◌, true,
}
use zephyr_io.World.{Ptr, Source, World}
use zephyr_io.Kernel.{no_wait, Kernel, Program}
use zephyr_io.Table.Value.{unsigned}
use zephyr_io.Core.{weave_process_messages}
use zephyr_io.Image.Macros.{
  PacketSinkStatics, weave_packet_pool_define, weave_packet_sink_define, weave_packet_source_define,
}
use zephyr_io.Packet.{
  weave_packet_id_any, NetBuf, PacketPool, weave_packet_alloc, weave_packet_get_id,
  weave_packet_get_counter, weave_packet_get_timestamp_ticks, weave_packet_set_id,
  weave_packet_set_counter, weave_packet_set_timestamp_ticks, weave_packet_send,
  weave_packet_send_ref,
}

-- `struct packet_header`, packed.
pub record PacketHeader : Type 0 where
  pub packet_id : ℕ
  pub reserved : ℕ
  pub counter : ℕ
  pub content_length : ℕ
  pub timestamp_ns : ℕ

abbrev pub packet_header_size : ℕ
packet_header_size = 14

-- A number in so many bytes, little endian.
unfoldable pub le_bytes : ℕ → ℕ → List ℕ
le_bytes zero n = []
le_bytes (suc k) n = (n % 256) ∷ le_bytes k (n / 256)

unfoldable pub header_bytes : PacketHeader → List ℕ
unfolding le_bytes
header_bytes h =
    le_bytes 1 h.packet_id
    ++ le_bytes 1 h.reserved
    ++ le_bytes 2 h.counter
    ++ le_bytes 2 h.content_length
    ++ le_bytes 8 h.timestamp_ns

unfoldable pub header_of : List ℕ → PacketHeader
unfolding unsigned
header_of bs = record {
  packet_id = unsigned 1 bs;
  reserved = unsigned 1 (drop 1 bs);
  counter = unsigned 2 (drop 2 bs);
  content_length = unsigned 2 (drop 4 bs);
  timestamp_ns = unsigned 8 (drop 6 bs);
}

-- The services on the data of buffers and on times that the handlers call.
pub record BufData (K : Type 0) : Type 0 where
  -- the `len` bytes at `data`
  pub bytes : Ptr → K → List ℕ
  -- net_buf_add and the writes behind it
  pub add : Ptr → List ℕ → K → K
  pub pull : Ptr → ℕ → K → K
  pub frags : Ptr → K → Option Ptr
  pub frag_add : Ptr → Ptr → K → K
  pub frags_len : Ptr → K → ℕ
  pub ticks_to_cyc : ℕ → ℕ
  pub cyc_to_ns : ℕ → ℕ
  pub ns_to_ticks : ℕ → ℕ

abbrev pub or_zero : Option ℕ → ℕ
or_zero none = 0
or_zero (some n) = n

module _ {K : Type 0} (k : Kernel K) (nb : NetBuf K) (bd : BufData K) (p : Program K) where
  -- The header that is put before a packet with this id.
  unfoldable pub header_for : Ptr → ℕ → K → PacketHeader
  header_for buf_ref packet_id s = record {
    packet_id = packet_id;
    reserved = 0;
    counter = or_zero (weave_packet_get_counter nb (some buf_ref) true s);
    content_length = bd.frags_len buf_ref s % 2 ^ 16;
    timestamp_ns =
        bd.cyc_to_ns
          (bd.ticks_to_cyc (or_zero (weave_packet_get_timestamp_ticks nb (some buf_ref) true s)));
  }

  -- The header stands in its buffer: the packet is chained behind it and sent, unless the two
  -- buffers are one or would form a circle.
  unfoldable pub chain_and_send : Ptr → Ptr → Ptr → World K → World K
  chain_and_send source header_buf buf_ref w =
      let s1 = nb.net_buf_ref buf_ref w.kernel in
      let dropped = record w {
        kernel = nb.net_buf_unref (some header_buf) (nb.net_buf_unref (some buf_ref) s1);
      } in
      let chained = record w { kernel = bd.frag_add header_buf buf_ref s1 } in
      let sent = (weave_packet_send k nb p (some source) (some header_buf) no_wait chained).1 in
      if buf_ref == header_buf then dropped else elim (bd.frags buf_ref s1) [
        | none ↦ sent
        | some f ↦ if f == header_buf then dropped else sent
      ]

  unfoldable pub outbound_handler : PacketPool → Ptr → Ptr → World K → World K
  outbound_handler protocol_pool source buf_ref w =
      let (header_buf, s1) = weave_packet_alloc nb (some protocol_pool) no_wait w.kernel in
      elim header_buf [
        | none ↦ record w { kernel = s1 }
        | some hb ↦ elim (weave_packet_get_id nb (some buf_ref) true s1) [
          | none ↦ record w { kernel = nb.net_buf_unref (some hb) s1 }
          | some packet_id ↦
              chain_and_send source hb buf_ref (record w {
                kernel = bd.add hb (header_bytes (header_for buf_ref packet_id s1)) s1;
              })
        ]
      ]

  unfoldable pub inbound_handler : Ptr → Ptr → World K → World K
  inbound_handler source buf_ref w =
      let header = header_of (bd.bytes buf_ref w.kernel) in
      let s1 = (weave_packet_set_id nb (some buf_ref) header.packet_id w.kernel).1 in
      let s2 = (weave_packet_set_counter nb (some buf_ref) header.counter s1).1 in
      let ticks = bd.ns_to_ticks header.timestamp_ns % 2 ^ 32 in
      let s3 = (weave_packet_set_timestamp_ticks nb (some buf_ref) ticks s2).1 in
      let w1 = record w { kernel = bd.pull buf_ref packet_header_size s3 } in
      let w2 = (weave_packet_send_ref k nb p (some source) (some buf_ref) no_wait w1).1 in
      if ltb (length (bd.bytes buf_ref w.kernel)) packet_header_size then w else w2

-- The pool of headers and the two sinks and sources that the macros of packet.h define.
unfoldable protocol_pool : Ptr → Ptr → PacketPool × ℕ
unfolding weave_packet_pool_define
protocol_pool net_buf_pool counter = weave_packet_pool_define net_buf_pool counter

unfoldable protocol_sink : Ptr → Ptr → Ptr → PacketSinkStatics
unfolding weave_packet_sink_define
protocol_sink ctx wrapper protocol_queue =
    weave_packet_sink_define ctx wrapper (some protocol_queue) weave_packet_id_any none

unfoldable protocol_source : Ptr → Source
unfolding weave_packet_source_define
protocol_source weave_packet_ops = weave_packet_source_define weave_packet_ops

-- One round of the thread, when k_poll has returned `ret`; `none` means that the messages do not end
-- within the fuel.
unfoldable protocol_round :
    {K : Type 0} → Kernel K → Program K → Ptr → ℕ → ℤ → World K → Option (World K)
protocol_round k p protocol_queue fuel ret w =
    let processed = weave_process_messages k p fuel (some protocol_queue) no_wait w in
    if is_zero ret then Option.map (λ done. done.1) processed else some w
