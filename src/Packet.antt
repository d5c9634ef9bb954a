-- ===== src/Packet.antt =====
-- src/packet.c and include/weave/packet.h, built without CONFIG_WEAVE_PACKET_TIMESTAMP_HIRES:
-- network buffers that carry their routing metadata in the user data.
pub mod Meta
pub mod Access
pub mod Alloc
pub mod Filter
pub mod Balance
use mathlib.Core.Option
use zephyr_io.Prelude.{
  ℕ, suc, ◌+◌, ◌-◌, ◌*◌, ◌/◌, ◌%◌, ◌^◌, Option, none, some, List, [], ◌∷◌, ◌++◌, Bool, true, false,
  ℤ, pos, neg, einval, eacces, ltb, ◌==◌, ◌&&◌, not, is_none, take, drop, get_or, if◌then◌else◌,
}
use zephyr_io.World.{Ptr, World}
use zephyr_io.Kernel.{Timeout, Kernel, Program}
use zephyr_io.Core.{weave_source_emit}

-- The services for network buffers, the tick counter and atomics that the sources call. The address
-- of a buffer stands for it.
pub record NetBuf (K : Type 0) : Type 0 where
  pub net_buf_ref : Ptr → K → K
  -- net_buf_unref ignores NULL
  pub net_buf_unref : Option Ptr → K → K
  pub net_buf_alloc : Ptr → Timeout → K → Option Ptr × K
  pub user_data_size : Ptr → K → ℕ
  -- the bytes behind net_buf_user_data, read and written
  pub user_data : Ptr → K → List ℕ
  pub set_user_data : Ptr → List ℕ → K → K
  -- k_uptime_ticks
  pub uptime_ticks : K → ℕ
  -- atomic_inc: the value before
  pub atomic_inc : Ptr → K → ℕ × K

-- `struct weave_packet_metadata`
pub record PacketMetadata : Type 0 where
  pub packet_id : ℕ
  pub client_id : ℕ
  pub counter : ℕ
  pub ticks : ℕ

-- `struct weave_packet_pool`; `counter` is the address of the atomic.
pub record PacketPool : Type 0 where
  pub pool : Option Ptr
  pub counter : Ptr

-- `struct weave_packet_sink_ctx`
pub record PacketSinkCtx : Type 0 where
  pub filter : ℕ
  pub user_data : Option Ptr

abbrev pub weave_packet_id_any : ℕ
weave_packet_id_any = 0xff

-- The size of the packed struct.
abbrev pub weave_packet_metadata_size : ℕ
weave_packet_metadata_size = 8

-- The struct as it lies in memory, little endian and packed.
unfoldable pub to_bytes : PacketMetadata → List ℕ
to_bytes m =
    (m.packet_id % 256)
    ∷ (m.client_id % 256)
    ∷ (m.counter % 256)
    ∷ (m.counter / 256 % 256)
    ∷ (m.ticks % 256)
    ∷ (m.ticks / 256 % 256)
    ∷ (m.ticks / 65536 % 256)
    ∷ (m.ticks / 16777216 % 256)
    ∷ []

unfoldable pub of_bytes : List ℕ → PacketMetadata
of_bytes bs = record {
  packet_id = get_or bs 0 0;
  client_id = get_or bs 1 0;
  counter = get_or bs 2 0 + 256 * get_or bs 3 0;
  ticks = get_or bs 4 0 + 256 * get_or bs 5 0 + 65536 * get_or bs 6 0 + 16777216 * get_or bs 7 0;
}

-- `memcmp(a, b, n) == 0` of C
unfoldable pub memcmp_eq : List ℕ → List ℕ → ℕ → Bool
memcmp_eq (x ∷ xs) (y ∷ ys) (suc n) = x == y && memcmp_eq xs ys n
memcmp_eq _ _ _ = true

unfoldable pub weave_packet_meta_is_zero : List ℕ → Bool
unfolding memcmp_eq
weave_packet_meta_is_zero bytes =
    get_or bytes 0 0 == 0 && memcmp_eq bytes (drop 1 bytes) (weave_packet_metadata_size - 1)

-- The conditions of packet_buf_ref on a context and on the metadata.
unfoldable pub turned_away : PacketSinkCtx → Option PacketMetadata → Bool
turned_away ctx none = false
turned_away ctx (some m) =
    not (ctx.filter == weave_packet_id_any)
    && not (m.packet_id == ctx.filter)
    && not (m.packet_id == weave_packet_id_any)

module _ {K : Type 0} (nb : NetBuf K) where
  -- The metadata of the buffer, read; NULL if it has none.
  unfoldable pub weave_packet_get_meta : Option Ptr → K → Option PacketMetadata
  weave_packet_get_meta none s = none
  weave_packet_get_meta (some buf) s =
      if ltb (nb.user_data_size buf s) weave_packet_metadata_size
      then none
      else if weave_packet_meta_is_zero (take weave_packet_metadata_size (nb.user_data buf s))
      then none
      else some (of_bytes (nb.user_data buf s))

  -- A write through the pointer to the metadata.
  unfoldable pub put_meta : Ptr → PacketMetadata → K → K
  put_meta buf m s =
      nb.set_user_data buf (to_bytes m ++ drop weave_packet_metadata_size (nb.user_data buf s)) s

  -- The shape of the setters: one field of the metadata is changed.
  unfoldable pub set_field : (PacketMetadata → PacketMetadata) → Option Ptr → K → ℤ × K
  set_field change none s = (neg einval, s)
  set_field change (some buf) s = elim (weave_packet_get_meta (some buf) s) [
    | none ↦ (neg einval, s)
    | some m ↦ (pos 0, put_meta buf (change m) s)
  ]

  -- The shape of the getters: `none` is the result -EINVAL, `some` what `*out` receives. The caller's
  -- `out` is NULL if `has_out` is false.
  unfoldable pub get_field : (PacketMetadata → ℕ) → Option Ptr → Bool → K → Option ℕ
  get_field field buf has_out s = elim (weave_packet_get_meta buf s) [
    | none ↦ none
    | some m ↦ if has_out then some (field m) else none
  ]

  unfoldable pub weave_packet_set_id : Option Ptr → ℕ → K → ℤ × K
  unfolding set_field
  weave_packet_set_id buf packet_id = set_field (λ m. record m { packet_id = packet_id }) buf

  unfoldable pub weave_packet_get_id : Option Ptr → Bool → K → Option ℕ
  unfolding get_field
  weave_packet_get_id = get_field (λ m. m.packet_id)

  unfoldable pub weave_packet_set_client_id : Option Ptr → ℕ → K → ℤ × K
  unfolding set_field
  weave_packet_set_client_id buf client_id = set_field (λ m. record m { client_id = client_id }) buf

  unfoldable pub weave_packet_get_client_id : Option Ptr → Bool → K → Option ℕ
  unfolding get_field
  weave_packet_get_client_id = get_field (λ m. m.client_id)

  unfoldable pub weave_packet_set_counter : Option Ptr → ℕ → K → ℤ × K
  unfolding set_field
  weave_packet_set_counter buf counter = set_field (λ m. record m { counter = counter }) buf

  unfoldable pub weave_packet_get_counter : Option Ptr → Bool → K → Option ℕ
  unfolding get_field
  weave_packet_get_counter = get_field (λ m. m.counter)

  -- `meta->ticks = k_uptime_ticks()` keeps 32 bits.
  unfoldable pub weave_packet_update_timestamp : Option Ptr → K → ℤ × K
  unfolding set_field
  weave_packet_update_timestamp buf s =
      set_field (λ m. record m { ticks = nb.uptime_ticks s % 2 ^ 32 }) buf s

  unfoldable pub weave_packet_get_timestamp_ticks : Option Ptr → Bool → K → Option ℕ
  unfolding get_field
  weave_packet_get_timestamp_ticks = get_field (λ m. m.ticks)

  unfoldable pub weave_packet_set_timestamp_ticks : Option Ptr → ℕ → K → ℤ × K
  unfolding set_field
  weave_packet_set_timestamp_ticks buf ticks = set_field (λ m. record m { ticks = ticks }) buf

  unfoldable pub packet_meta_init : Ptr → PacketPool → ℕ → K → K
  packet_meta_init buf pool packet_id s =
      let (n, s') = nb.atomic_inc pool.counter s in
      put_meta buf
        (record {
          packet_id = packet_id;
          client_id = 0;
          counter = n % 2 ^ 16;
          ticks = nb.uptime_ticks s' % 2 ^ 32;
        })
        s'

  unfoldable pub weave_packet_alloc_with_id : Option PacketPool → ℕ → Timeout → K → Option Ptr × K
  weave_packet_alloc_with_id none packet_id timeout s = (none, s)
  weave_packet_alloc_with_id (some pool) packet_id timeout s = elim pool.pool [
    | none ↦ (none, s)
    | some net_pool ↦
        let (buf, s') = nb.net_buf_alloc net_pool timeout s in
        elim buf [
          | none ↦ (none, s')
          | some b ↦ (
            some b,
            if ltb (nb.user_data_size b s') weave_packet_metadata_size
                then s'
                else packet_meta_init b pool packet_id s',
          )
        ]
  ]

  unfoldable pub weave_packet_alloc : Option PacketPool → Timeout → K → Option Ptr × K
  unfolding weave_packet_alloc_with_id
  weave_packet_alloc pool timeout s = weave_packet_alloc_with_id pool weave_packet_id_any timeout s

  -- Whether the sink's filter turns the packet away.
  unfoldable pub filtered_out : Option PacketSinkCtx → Ptr → K → Bool
  unfolding turned_away
  filtered_out none buf s = false
  filtered_out (some ctx) buf s = turned_away ctx (weave_packet_get_meta (some buf) s)

module _ {K : Type 0} (nb : NetBuf K) (p : Program K) (ctx_at : Ptr → PacketSinkCtx) where
  -- `sink->user_data` read as the context of a packet sink.
  unfoldable pub ctx_of : Ptr → Option PacketSinkCtx
  ctx_of sink = Option.map ctx_at (p.sink_at sink).user_data

  unfoldable pub packet_buf_ref : Ptr → Ptr → World K → ℤ × World K
  packet_buf_ref buf sink w =
      if filtered_out nb (ctx_of sink) buf w.kernel
      then (neg eacces, w)
      else (pos 0, record w { kernel = nb.net_buf_ref buf w.kernel })

module _ {K : Type 0} (nb : NetBuf K) where
  unfoldable pub packet_buf_unref : Option Ptr → World K → World K
  packet_buf_unref buf w = record w { kernel = nb.net_buf_unref buf w.kernel }

module _ {K : Type 0} (k : Kernel K) (nb : NetBuf K) (p : Program K) where
  unfoldable pub weave_packet_send : Option Ptr → Option Ptr → Timeout → World K → ℤ × World K
  weave_packet_send source buf timeout w =
      let (ret, w') = weave_source_emit k p source buf timeout w in
      (ret, record w' { kernel = nb.net_buf_unref buf w'.kernel })

  unfoldable pub weave_packet_send_ref : Option Ptr → Option Ptr → Timeout → World K → ℤ × World K
  weave_packet_send_ref source buf timeout w = weave_source_emit k p source buf timeout w
