-- ===== src/Packet/Alloc.antt =====
-- Allocation of packets: the metadata of a new buffer.
use zephyr_io.Prelude.{
  ℕ, ◌+◌, ◌%◌, ◌^◌, ◌≡◌, ◌∙◌, ◌<◌, ◌≤◌, refl, ap, some, List, false, arith, length, ltb,
}
use zephyr_io.World.{Ptr, update}
use zephyr_io.Core.Drain.{update_self}
use zephyr_io.Kernel.{Timeout}
use zephyr_io.Packet.{
  NetBuf, PacketMetadata, PacketPool, packet_meta_init, put_meta, weave_packet_get_meta,
  weave_packet_alloc_with_id,
}
use zephyr_io.Packet.Meta.{InRange}
use zephyr_io.Packet.Access.{Memory, shown, put_meta-meta}

-- The counter of an atomic, a number of 32 bits, what atomic_inc does to it, and that other services leave it alone.
pub record Counters {K : Type 0} (nb : NetBuf K) : Type 0 where
  pub value : K → Ptr → ℕ
  pub inc : (a : Ptr) (s : K) → (nb.atomic_inc a s).0 ≡ value s a
  pub inc_value :
      (a : Ptr) (s : K)
      → value (nb.atomic_inc a s).1 ≡ update (value s) a ((value s a + 1) % 2 ^ 32)
  pub inc_data : (a b : Ptr) (s : K) → nb.user_data b (nb.atomic_inc a s).1 ≡ nb.user_data b s
  pub set_value : (b : Ptr) (bs : List ℕ) (s : K) → value (nb.set_user_data b bs s) ≡ value s
  pub alloc_value : (q : Ptr) (t : Timeout) (s : K) → value (nb.net_buf_alloc q t s).1 ≡ value s

module _ {K : Type 0} {nb : NetBuf K} (mem : Memory nb) (cnt : Counters nb) where
  -- The metadata of a packet allocated in state s, at the tick `now`.
  abbrev pub initial : PacketPool → ℕ → ℕ → K → PacketMetadata
  initial pool id now s = record {
    packet_id = id;
    client_id = 0;
    counter = cnt.value s pool.counter % 2 ^ 16;
    ticks = now % 2 ^ 32;
  }

  -- The tick that a packet allocated in state s is stamped with.
  abbrev pub stamped_at : PacketPool → Ptr → Timeout → K → ℕ
  stamped_at pool q timeout s =
      nb.uptime_ticks (nb.atomic_inc pool.counter (nb.net_buf_alloc q timeout s).1).1

  initial-InRange :
      (pool : PacketPool) (id now : ℕ) (s : K) → id < 256 → InRange (initial pool id now s)
  initial-InRange pool id now s h = record {
    packet_id = h;
    client_id = omega arith;
    counter = omega arith;
    ticks = omega arith;
  }

  meta_init-meta :
      (b : Ptr) (pool : PacketPool) (id : ℕ) (s : K)
      → 8 ≤ length (nb.user_data b s)
      → id < 256
      → weave_packet_get_meta nb (some b) (packet_meta_init nb b pool id s)
        ≡ shown (initial pool id (nb.uptime_ticks (nb.atomic_inc pool.counter s).1) s)
  unfolding packet_meta_init
  meta_init-meta b pool id s len h =
      let s' = (nb.atomic_inc pool.counter s).1 in
      rw (cnt.inc pool.counter s) (
        put_meta-meta mem b s' (initial pool id (nb.uptime_ticks s') s)
          (rw (cnt.inc_data pool.counter b s) len)
          (initial-InRange pool id (nb.uptime_ticks s') s h))

  meta_init-value :
      (b : Ptr) (pool : PacketPool) (id : ℕ) (s : K)
      → cnt.value (packet_meta_init nb b pool id s) pool.counter
        ≡ (cnt.value s pool.counter + 1) % 2 ^ 32
  unfolding packet_meta_init put_meta
  meta_init-value b pool id s =
      ap (λ v. v pool.counter) (cnt.set_value b _ _)
      ∙ ap (λ v. v pool.counter) (cnt.inc_value pool.counter s)
      ∙ update_self (cnt.value s) pool.counter ((cnt.value s pool.counter + 1) % 2 ^ 32)

  alloc_eq :
      (pool : PacketPool) (q b : Ptr) (id : ℕ) (timeout : Timeout) (s : K)
      → pool.pool ≡ some q
      → (nb.net_buf_alloc q timeout s).0 ≡ some b
      → 8 ≤ nb.user_data_size b (nb.net_buf_alloc q timeout s).1
      → weave_packet_alloc_with_id nb (some pool) id timeout s
        ≡ (some b, packet_meta_init nb b pool id (nb.net_buf_alloc q timeout s).1)
  unfolding weave_packet_alloc_with_id packet_meta_init
  alloc_eq pool q b id timeout s h1 h2 h3 =
      let e : ltb (nb.user_data_size b (nb.net_buf_alloc q timeout s).1) 8 ≡ false = ground arith in
      rw (h1, h2, e) refl

  -- An allocation that gets a buffer with room for the metadata returns the buffer and counts the
  -- packet modulo 2^32. The metadata has the id that is asked for, the client 0, the counter before
  -- modulo 2^16 and the tick modulo 2^32; it reads as missing if all of these are 0.
  pub alloc-meta :
      (pool : PacketPool) (q b : Ptr) (id : ℕ) (timeout : Timeout) (s : K)
      → pool.pool ≡ some q
      → (nb.net_buf_alloc q timeout s).0 ≡ some b
      → 8 ≤ nb.user_data_size b (nb.net_buf_alloc q timeout s).1
      → id < 256
      → let (r, s') = weave_packet_alloc_with_id nb (some pool) id timeout s in
        (r ≡ some b)
        × (cnt.value s' pool.counter ≡ (cnt.value s pool.counter + 1) % 2 ^ 32)
        × (weave_packet_get_meta nb (some b) s'
            ≡ shown (initial pool id (stamped_at pool q timeout s) s))
  alloc-meta pool q b id timeout s h1 h2 h3 h4 =
      let s1 = (nb.net_buf_alloc q timeout s).1 in
      let v = ap (λ v. v pool.counter) (cnt.alloc_value q timeout s) in
      rw (alloc_eq pool q b id timeout s h1 h2 h3) (
        refl,
        meta_init-value b pool id s1 ∙ ap (λ n. (n + 1) % 2 ^ 32) v,
        meta_init-meta b pool id s1 (rw (mem.size b s1) h3) h4
            ∙ ap
                (λ n. shown (record {
                  packet_id = id;
                  client_id = 0;
                  counter = n % 2 ^ 16;
                  ticks = stamped_at pool q timeout s % 2 ^ 32;
                }))
                v,
      )
