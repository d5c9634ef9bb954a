-- ===== src/Tests/RoutingCases.antt =====
-- The theorems on samples/packet_routing/src at concrete packets.
use zephyr_io.Prelude.{
  ◌==◌, if◌then◌else◌, ℕ, ◌≡◌, ◌*◌, ◌/◌, refl, none, some, [], ◌∷◌, ◌++◌, false, pos, arith, drop,
}
use zephyr_io.World.{World, update}
use zephyr_io.Kernel.{no_wait}
use zephyr_io.Core.Drain.{update_self, update_other}
use zephyr_io.Packet.{
  PacketPool, weave_packet_alloc, weave_packet_alloc_with_id, packet_meta_init, put_meta,
  weave_packet_get_meta, weave_packet_meta_is_zero, of_bytes, weave_packet_send_ref,
  weave_packet_send,
}
use zephyr_io.Routing.Commands.{CommandStats, handle_all}
use zephyr_io.Routing.Totals.{AddsUp, handle_all-AddsUp}
use zephyr_io.Routing.Protocol.{
  PacketHeader, BufData, header_bytes, outbound_handler, inbound_handler,
}
use zephyr_io.Routing.Header.{HeaderInRange}
use zephyr_io.Routing.Inbound.{Apart}
use zephyr_io.Routing.Chained.{Chains, Linked, chain_bytes}
use zephyr_io.Routing.Outbound.{departing, header_with, inbound_handler-outbound_handler}
use zephyr_io.Tests.Machine.{quiet_kernel}
use zephyr_io.Tests.PacketCases.{Bufs, net, net_memory, some_meta, bufs, routing}

abbrev fresh : CommandStats
fresh = record {
  commands_processed = 0;
  start_commands = 0;
  stop_commands = 0;
  unknown_commands = 0;
}

-- The state of the kernel is here the count of the sampling semaphore.
abbrev on : ℕ → ℕ
on n = 1

abbrev off : ℕ → ℕ
off n = 0

handle_all-AddsUp_example :
    AddsUp (handle_all on off ((1 ∷ []) ∷ [] ∷ (2 ∷ 5 ∷ []) ∷ (9 ∷ []) ∷ []) (fresh, 0)).0
handle_all-AddsUp_example =
    handle_all-AddsUp on off ((1 ∷ []) ∷ [] ∷ (2 ∷ 5 ∷ []) ∷ (9 ∷ []) ∷ []) fresh 0 refl

abbrev a_header : PacketHeader
a_header = record {
  packet_id = 2;
  reserved = 0;
  counter = 700;
  content_length = 384;
  timestamp_ns = 5000000000;
}

a_header-InRange : HeaderInRange a_header
a_header-InRange = record {
  packet_id = omega arith;
  reserved = omega arith;
  counter = omega arith;
  content_length = omega arith;
  timestamp_ns = omega arith;
}

abbrev net_data : BufData Bufs
net_data = record {
  bytes = λ b s. s.payload_of b;
  add = λ b bs s. record s { payload_of = update s.payload_of b (s.payload_of b ++ bs) };
  pull = λ b n s. record s { payload_of = update s.payload_of b (drop n (s.payload_of b)) };
  frags = λ b s. s.frags_of b;
  frag_add = λ b c s. record s { frags_of = update s.frags_of b (some c) };
  frags_len = λ b s. 5;
  ticks_to_cyc = λ n. n;
  cyc_to_ns = λ n. 1000 * n;
  ns_to_ticks = λ n. n / 1000;
}

net-Chains : Chains net net_data
net-Chains = record {
  added = λ b bs s. update_self s.payload_of b (s.payload_of b ++ bs);
  add_others = λ b c bs s ne. update_other s.payload_of b c (s.payload_of b ++ bs) ne;
  add_frags = λ b c bs s. refl;
  ref_bytes = λ b c s. refl;
  ref_frags = λ b c s. refl;
  linked = λ h b s e. update_self s.frags_of h (some b);
  link_others = λ h b c s e ne. update_other s.frags_of h c (some b) ne;
  link_bytes = λ h b c s. refl;
}

net-Apart : Apart net net_data
net-Apart = record {
  data_stays = λ b c bs s. refl;
  pulled = λ b n s. update_self s.payload_of b (drop n (s.payload_of b));
  user_data_stays = λ b c n s. refl;
  size_stays = λ b c n s. refl;
}

abbrev received : World Bufs
received = record {
  kernel = record bufs { payload_of = λ b. header_bytes a_header ++ 0xb2 ∷ 0xb3 ∷ [] };
  sources = λ s. record { sinks = []; ops = none };
  observables = λ a. record {
    source = 0;
    value = none;
    size = 0;
    sem = 0;
    owner_sink = 0;
    validator = none;
    publishing = false;
  };
  contexts = λ c. record { completion = 0; result = pos 0; request = none; response = none };
  memory = λ a. [];
}

-- Packet 84 of 5 bytes in two buffers, with the metadata `some_meta`, goes out; buffer 80 gets its
-- header.
abbrev sending : World Bufs
sending = record received {
  kernel = record {
    data_of = λ b. 7 ∷ 2 ∷ 44 ∷ 1 ∷ 112 ∷ 17 ∷ 1 ∷ 0 ∷ [];
    counter_of = λ a. 3;
    payload_of = λ b. if b == 84 then 1 ∷ 2 ∷ [] else if b == 88 then 3 ∷ 4 ∷ 5 ∷ [] else [];
    frags_of = λ b. if b == 84 then some 88 else none;
  };
}

abbrev header_pool : PacketPool
header_pool = record { pool = some 82; counter = 83 }

abbrev allocated : Bufs
allocated = (weave_packet_alloc net (some header_pool) no_wait sending.kernel).1

abbrev arrived : World Bufs
arrived = record received {
  kernel = record bufs {
    payload_of = λ b. header_bytes (header_with net_data some_meta 5) ++ 1 ∷ 2 ∷ 3 ∷ 4 ∷ 5 ∷ [];
  };
}

arrived-meta : weave_packet_get_meta net (some 80) arrived.kernel ≡ some some_meta
unfolding weave_packet_get_meta weave_packet_meta_is_zero of_bytes
arrived-meta = refl

sending-alloc :
    ((weave_packet_alloc net (some header_pool) no_wait sending.kernel).0 ≡ some 80)
    × (weave_packet_get_meta net (some 84) allocated ≡ some some_meta)
unfolding weave_packet_alloc weave_packet_get_meta weave_packet_meta_is_zero of_bytes
    weave_packet_alloc_with_id packet_meta_init put_meta
sending-alloc = (refl, refl)

inbound_handler-outbound_handler_example :
    let sent =
      departing net_memory net-Apart net-Chains quiet_kernel routing 80 84 some_meta allocated in
    (outbound_handler quiet_kernel net net_data routing header_pool 87 84 sending
      ≡ (weave_packet_send quiet_kernel net routing
          (some 87)
          (some 80)
          no_wait
          (record sending { kernel = sent })).1)
    × Linked net_data sent (some 80) (80 ∷ 84 ∷ 88 ∷ [])
    × (chain_bytes net_data sent (80 ∷ 84 ∷ 88 ∷ [])
        ≡ header_bytes (header_with net_data some_meta 5) ++ 1 ∷ 2 ∷ 3 ∷ 4 ∷ 5 ∷ [])
    × (s : Bufs) × (inbound_handler quiet_kernel net net_data routing 86 80 arrived
        ≡ (weave_packet_send_ref quiet_kernel net routing
            (some 86)
            (some 80)
            no_wait
            (record arrived { kernel = s })).1)
    × (weave_packet_get_meta net (some 80) s ≡ some some_meta)
    × (net_data.bytes 80 s ≡ 1 ∷ 2 ∷ 3 ∷ 4 ∷ 5 ∷ [])
unfolding weave_packet_alloc weave_packet_alloc_with_id packet_meta_init put_meta
inbound_handler-outbound_handler_example =
    inbound_handler-outbound_handler net_memory net-Apart net-Chains quiet_kernel routing
      header_pool 87 84 80 (88 ∷ []) some_meta sending 86 80 some_meta arrived sending-alloc.0
      sending-alloc.1 refl refl (refl, (refl, refl))
      ((λ e. ground arith), ((λ e. ground arith), tt)) (omega arith) (omega arith) arrived-meta refl
