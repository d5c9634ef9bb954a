-- ===== src/Tests/PacketCases.antt =====
-- The theorems on src/packet.c at a small memory of buffers.
use zephyr_io.Prelude.{
  Option, ◌-◌, ℕ, ◌+◌, ◌%◌, ◌^◌, ◌≡◌, ◌⊎◌, ◌∙◌, refl, ap, none, some, List, [], ◌∷◌, map, false,
  pos, neg, eacces, arith, length, ◌==◌, if◌then◌else◌, length-map,
}
use zephyr_io.World.{Ptr, World, update}
use zephyr_io.Kernel.{no_wait, Program}
use zephyr_io.Core.Drain.{update_self, update_other}
use zephyr_io.Packet.{
  NetBuf, PacketMetadata, PacketPool, PacketSinkCtx, of_bytes, weave_packet_meta_is_zero,
  weave_packet_get_meta, weave_packet_set_id, weave_packet_set_client_id, weave_packet_set_counter,
  weave_packet_set_timestamp_ticks, weave_packet_update_timestamp, weave_packet_alloc_with_id,
  ctx_of, packet_buf_ref, packet_buf_unref, weave_packet_send, weave_packet_send_ref,
}
use zephyr_io.Core.Balance.{Inv}
use zephyr_io.Packet.Balance.{send-Inv}
use zephyr_io.Tests.Machine.{Machine, machine, machine_laws, app, start}
use zephyr_io.Tests.CoreCases.{app-Counted, start-Inv, refs7}
use zephyr_io.Packet.Meta.{InRange, IsBytes}
use zephyr_io.Packet.Access.{Memory, IsStored, shown, setters-IsStored}
use zephyr_io.Packet.Alloc.{Counters, initial, stamped_at, alloc-meta}
use zephyr_io.Packet.Filter.{Mismatch, packet_buf_ref-filters}

-- The user data, the data and the fragments of buffers, and the counters.
pub record Bufs : Type 0 where
  pub data_of : Ptr → List ℕ
  pub counter_of : Ptr → ℕ
  pub payload_of : Ptr → List ℕ
  pub frags_of : Ptr → Option Ptr

abbrev pub net : NetBuf Bufs
net = record {
  net_buf_ref = λ b s. s;
  net_buf_unref = λ b s. s;
  net_buf_alloc = λ q t s. (some 80, s);
  user_data_size = λ b s. length (s.data_of b);
  user_data = λ b s. map (λ n. n % 256) (s.data_of b);
  set_user_data = λ b bs s. record s { data_of = update s.data_of b bs };
  uptime_ticks = λ s. 1000;
  atomic_inc = λ a s. (
    s.counter_of a,
    record s { counter_of = update s.counter_of a ((s.counter_of a + 1) % 2 ^ 32) },
  );
}

bytes_same : (bs : List ℕ) → IsBytes bs → map (λ n. n % 256) bs ≡ bs
bytes_same [] h = refl
bytes_same (b ∷ bs) h = let e : b % 256 ≡ b = omega (arith, h.0) in rw (e, bytes_same bs h.1) refl

map-IsBytes : (bs : List ℕ) → IsBytes (map (λ n. n % 256) bs)
map-IsBytes [] = tt
map-IsBytes (b ∷ bs) = (omega arith, map-IsBytes bs)

pub net_memory : Memory net
net_memory = record {
  size = λ b s. length-map (s.data_of b) (λ n. n % 256);
  bytes = λ b s. map-IsBytes (s.data_of b);
  written = λ b bs s h hb. ap (map (λ n. n % 256)) (update_self s.data_of b bs) ∙ bytes_same bs hb;
  others = λ b c bs s ne. ap (map (λ n. n % 256)) (update_other s.data_of b c bs ne);
}

abbrev net_counters : Counters net
net_counters = record {
  value = λ s. s.counter_of;
  inc = λ a s. refl;
  inc_value = λ a s. refl;
  inc_data = λ a b s. refl;
  set_value = λ b bs s. refl;
  alloc_value = λ q t s. refl;
}

abbrev pub some_meta : PacketMetadata
some_meta = record { packet_id = 7; client_id = 2; counter = 300; ticks = 70000 }

some_meta-InRange : InRange some_meta
some_meta-InRange = record {
  packet_id = omega arith;
  client_id = omega arith;
  counter = omega arith;
  ticks = omega arith;
}

abbrev pub bufs : Bufs
bufs = record {
  data_of = λ b. if b == 80 then 7 ∷ 2 ∷ 44 ∷ 1 ∷ 112 ∷ 17 ∷ 1 ∷ 0 ∷ 9 ∷ [] else [];
  counter_of = λ a. 65535;
  payload_of = λ b. [];
  frags_of = λ b. none;
}

has_meta : weave_packet_get_meta net (some 80) bufs ≡ some some_meta
unfolding weave_packet_get_meta weave_packet_meta_is_zero of_bytes
has_meta = refl

setters-IsSet_example :
    IsStored net_memory 80
      (record some_meta { packet_id = 9 })
      bufs
      (weave_packet_set_id net (some 80) 9 bufs)
    × IsStored net_memory 80
        (record some_meta { client_id = 1 })
        bufs
        (weave_packet_set_client_id net (some 80) 1 bufs)
    × IsStored net_memory 80
        (record some_meta { counter = 500 })
        bufs
        (weave_packet_set_counter net (some 80) 500 bufs)
    × IsStored net_memory 80
        (record some_meta { ticks = 123456 })
        bufs
        (weave_packet_set_timestamp_ticks net (some 80) 123456 bufs)
    × IsStored net_memory 80
        (record some_meta { ticks = net.uptime_ticks bufs % 2 ^ 32 })
        bufs
        (weave_packet_update_timestamp net (some 80) bufs)
setters-IsSet_example =
    setters-IsStored net_memory 80 bufs some_meta 9 1 500 123456 has_meta (omega arith)
      (omega arith) (omega arith) (omega arith)

no_meta : weave_packet_get_meta net (some 81) bufs ≡ none
unfolding weave_packet_get_meta
no_meta = refl

abbrev packets : PacketPool
packets = record { pool = some 82; counter = 83 }

alloc-meta_example :
    let (r, s') = weave_packet_alloc_with_id net (some packets) 7 no_wait bufs in
    (r ≡ some 80)
    × (s'.counter_of 83 ≡ 65536)
    × (weave_packet_get_meta net (some 80) s'
        ≡ shown (
            initial net_memory net_counters packets 7
              (stamped_at net_memory net_counters packets 82 no_wait bufs)
              bufs))
alloc-meta_example =
    alloc-meta net_memory net_counters packets 82 80 7 no_wait bufs refl refl (omega arith)
      (omega arith)

abbrev pub routing : Program Bufs
routing = record {
  sink_at =
      λ s. record { handler = some 10; user_data = if s == 1 then some 5 else none; queue = none };
  ops_at = λ o. record { ref = none; unref = none };
  method_at =
      λ m. record { sink = 1; handler = 60; user_data = none; request_size = 4; response_size = 0 };
  connections = [];
  call = λ h ptr ud w. w;
  call_ref = λ f x s w. (pos 0, w);
  call_unref = λ g x w. w;
  call_method = λ h req res ud w. (pos 3, w);
  call_validator = λ v obs value ud w. (pos 0, w);
}

abbrev wants : Ptr → PacketSinkCtx
wants a = record { filter = 3; user_data = none }

abbrev routed : World Bufs
routed = record {
  kernel = bufs;
  sources = λ s. record { sinks = []; ops = none };
  observables = λ a. record {
    source = 51;
    value = none;
    size = 0;
    sem = 53;
    owner_sink = 4;
    validator = none;
    publishing = false;
  };
  contexts = λ c. record { completion = 70; result = pos 0; request = none; response = none };
  memory = λ a. [];
}

packet_buf_ref-filters_example :
    (Mismatch net (ctx_of net routing wants 1) 80 bufs
      × (packet_buf_ref net routing wants 80 1 routed ≡ (neg eacces, routed)))
    ⊎ (¬ Mismatch net (ctx_of net routing wants 1) 80 bufs
        × (packet_buf_ref net routing wants 80 1 routed ≡ (pos 0, routed)))
packet_buf_ref-filters_example = packet_buf_ref-filters net routing wants 80 1 routed

abbrev unref : Option Ptr → Machine → Machine
unref none s = s
unref (some b) s = record s { refs = update s.refs b (s.refs b - 1) }

-- The buffers of the small kernel are only counted.
abbrev counted_net : NetBuf Machine
counted_net = record {
  net_buf_ref = λ b s. record s { refs = update s.refs b (s.refs b + 1) };
  net_buf_unref = unref;
  net_buf_alloc = λ q t s. (none, s);
  user_data_size = λ b s. 0;
  user_data = λ b s. [];
  set_user_data = λ b bs s. s;
  uptime_ticks = λ s. 0;
  atomic_inc = λ a s. (0, s);
}

unref_same :
    (w : World Machine) → app.call_unref 32 (some 7) w ≡ packet_buf_unref counted_net (some 7) w
unfolding packet_buf_unref
unref_same w = refl

send-Inv_example :
    Inv machine_laws app
      (20 ∷ [])
      7
      30
      31
      32
      refs7
      0
      (weave_packet_send machine counted_net app (some 102) (some 7) no_wait start).1
    × Inv machine_laws app
        (20 ∷ [])
        7
        30
        31
        32
        refs7
        1
        (weave_packet_send_ref machine counted_net app (some 102) (some 7) no_wait start).1
send-Inv_example = send-Inv app-Counted counted_net unref_same 102 no_wait start 0 refl start-Inv
