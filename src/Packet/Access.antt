-- ===== src/Packet/Access.antt =====
-- The accessors of include/weave/packet.h over a buffer whose user data can be read back.
use zephyr_io.Prelude.{
  ℕ, ◌%◌, ◌^◌, ◌≡◌, ◌≢◌, ◌<◌, ◌≤◌, refl, ap, sym, ◌∙◌, Option, none, some, List, ◌++◌, Bool, false,
  ℤ, pos, neg, einval, arith, length, take, drop, ltb, if◌then◌else◌,
}
use zephyr_io.World.{Ptr}
use zephyr_io.Packet.{
  NetBuf, PacketMetadata, to_bytes, of_bytes, put_meta, set_field, get_field,
  weave_packet_meta_is_zero, weave_packet_get_meta, weave_packet_set_id, weave_packet_get_id,
  weave_packet_set_client_id, weave_packet_get_client_id, weave_packet_set_counter,
  weave_packet_get_counter, weave_packet_update_timestamp, weave_packet_get_timestamp_ticks,
  weave_packet_set_timestamp_ticks,
}
use zephyr_io.Packet.Meta.{
  InRange, IsBytes, of-to, all_zero, is_zero-to_bytes, of_bytes-InRange, written-IsBytes,
  length-written,
}

-- The user data of a buffer is a piece of memory of its own.
pub record Memory {K : Type 0} (nb : NetBuf K) : Type 0 where
  pub size : (b : Ptr) (s : K) → length (nb.user_data b s) ≡ nb.user_data_size b s
  pub bytes : (b : Ptr) (s : K) → IsBytes (nb.user_data b s)
  pub written :
      (b : Ptr) (bs : List ℕ) (s : K)
      → length bs ≡ nb.user_data_size b s
      → IsBytes bs
      → nb.user_data b (nb.set_user_data b bs s) ≡ bs
  pub others :
      (b c : Ptr) (bs : List ℕ) (s : K)
      → c ≢ b
      → nb.user_data c (nb.set_user_data b bs s) ≡ nb.user_data c s

-- What weave_packet_get_meta makes of metadata that is in the buffer.
abbrev pub shown : PacketMetadata → Option PacketMetadata
shown m = if all_zero m then none else some m

-- What it makes of the bytes of the user data.
abbrev meta_in : List ℕ → Option PacketMetadata
meta_in bs =
    if ltb (length bs) 8
    then none
    else if weave_packet_meta_is_zero (take 8 bs)
    then none
    else some (of_bytes bs)

meta_in-written :
    (m : PacketMetadata) (bs : List ℕ) → InRange m → meta_in (to_bytes m ++ bs) ≡ shown m
unfolding to_bytes
meta_in-written m bs r =
    let e : ltb (length (to_bytes m ++ bs)) 8 ≡ false = ground arith in
    rw (e, is_zero-to_bytes m r, of-to m bs r) refl

meta_in-of : (bs : List ℕ) (m : PacketMetadata) → meta_in bs ≡ some m → of_bytes bs ≡ m
meta_in-of bs m h = ground arith

rem_32 : (n : ℕ) → n % 2 ^ 32 < 4294967296
rem_32 n = omega arith

module _ {K : Type 0} {nb : NetBuf K} (mem : Memory nb) where
  meta_of_bytes :
      (b : Ptr) (s : K) → weave_packet_get_meta nb (some b) s ≡ meta_in (nb.user_data b s)
  unfolding weave_packet_get_meta
  meta_of_bytes b s = rw (mem.size b s) refl

  meta-length :
      (b : Ptr) (s : K) (m : PacketMetadata)
      → weave_packet_get_meta nb (some b) s ≡ some m
      → 8 ≤ length (nb.user_data b s)
  meta-length b s m h =
      let e : meta_in (nb.user_data b s) ≡ some m = sym (meta_of_bytes b s) ∙ h in ground arith

  -- What the buffer holds after a write through the pointer to the metadata.
  pub put_meta-meta :
      (b : Ptr) (s : K) (m : PacketMetadata)
      → 8 ≤ length (nb.user_data b s)
      → InRange m
      → weave_packet_get_meta nb (some b) (put_meta nb b m s) ≡ shown m
  unfolding put_meta
  put_meta-meta b s m len r =
      let bs = nb.user_data b s in
      let e =
        mem.written b (to_bytes m ++ drop 8 bs) s (length-written m bs len ∙ mem.size b s)
          (written-IsBytes m bs (mem.bytes b s)) in
      meta_of_bytes b (put_meta nb b m s) ∙ ap meta_in e ∙ meta_in-written m (drop 8 bs) r

  pub put_meta-others :
      (b c : Ptr) (s : K) (m : PacketMetadata)
      → c ≢ b
      → weave_packet_get_meta nb (some c) (put_meta nb b m s) ≡ weave_packet_get_meta nb (some c) s
  unfolding put_meta
  put_meta-others b c s m ne =
      meta_of_bytes c (put_meta nb b m s)
      ∙ ap meta_in (mem.others b c _ s ne)
      ∙ sym (meta_of_bytes c s)

  pub meta-InRange :
      (b : Ptr) (s : K) (m : PacketMetadata)
      → weave_packet_get_meta nb (some b) s ≡ some m
      → InRange m
  meta-InRange b s m h =
      let e : meta_in (nb.user_data b s) ≡ some m = sym (meta_of_bytes b s) ∙ h in
      rw (sym (meta_in-of (nb.user_data b s) m e))
        (of_bytes-InRange (nb.user_data b s) (mem.bytes b s))

  -- A setter has succeeded: it returned 0, the metadata is the one with the new field, and that of
  -- other buffers is as before.
  pub record IsStored (b : Ptr) (m : PacketMetadata) (s : K) (r : ℤ × K) : Type 0 where
    pub ret : r.0 ≡ pos 0
    pub meta : weave_packet_get_meta nb (some b) r.1 ≡ shown m
    pub others :
        (c : Ptr)
        → c ≢ b
        → weave_packet_get_meta nb (some c) r.1 ≡ weave_packet_get_meta nb (some c) s

  set_field-IsStored :
      (change : PacketMetadata → PacketMetadata) (b : Ptr) (s : K) (m : PacketMetadata)
      → weave_packet_get_meta nb (some b) s ≡ some m
      → InRange (change m)
      → IsStored b (change m) s (set_field nb change (some b) s)
  unfolding set_field
  set_field-IsStored change b s m h r =
      rw (h, set_field)
        (record {
          ret = refl;
          meta = put_meta-meta b s (change m) (meta-length b s m h) r;
          others = λ c ne. put_meta-others b c s (change m) ne;
        })

  -- On a buffer with valid metadata each setter, given a value that its C type can hold, returns 0
  -- and changes its one field: the metadata that is read next is the old with the new field, or
  -- none if all its fields are 0 now. The metadata of other buffers is untouched.
  pub setters-IsStored :
      (b : Ptr) (s : K) (m : PacketMetadata) (id client counter ticks : ℕ)
      → weave_packet_get_meta nb (some b) s ≡ some m
      → id < 256
      → client < 256
      → counter < 65536
      → ticks < 4294967296
      → IsStored b (record m { packet_id = id }) s (weave_packet_set_id nb (some b) id s)
        × IsStored b
            (record m { client_id = client })
            s
            (weave_packet_set_client_id nb (some b) client s)
        × IsStored b
            (record m { counter = counter })
            s
            (weave_packet_set_counter nb (some b) counter s)
        × IsStored b
            (record m { ticks = ticks })
            s
            (weave_packet_set_timestamp_ticks nb (some b) ticks s)
        × IsStored b
            (record m { ticks = nb.uptime_ticks s % 2 ^ 32 })
            s
            (weave_packet_update_timestamp nb (some b) s)
  unfolding weave_packet_set_id weave_packet_set_client_id weave_packet_set_counter
      weave_packet_set_timestamp_ticks weave_packet_update_timestamp
  setters-IsStored b s m id client counter ticks h h1 h2 h3 h4 =
      let r = meta-InRange b s m h in
      (
        set_field-IsStored (λ m. record m { packet_id = id }) b s m h
            (record {
              packet_id = h1;
              client_id = r.client_id;
              counter = r.counter;
              ticks = r.ticks;
            }),
        set_field-IsStored (λ m. record m { client_id = client }) b s m h
            (record {
              packet_id = r.packet_id;
              client_id = h2;
              counter = r.counter;
              ticks = r.ticks;
            }),
        set_field-IsStored (λ m. record m { counter = counter }) b s m h
            (record {
              packet_id = r.packet_id;
              client_id = r.client_id;
              counter = h3;
              ticks = r.ticks;
            }),
        set_field-IsStored (λ m. record m { ticks = ticks }) b s m h
            (record {
              packet_id = r.packet_id;
              client_id = r.client_id;
              counter = r.counter;
              ticks = h4;
            }),
        set_field-IsStored (λ m. record m { ticks = nb.uptime_ticks s % 2 ^ 32 }) b s m h
            (record {
              packet_id = r.packet_id;
              client_id = r.client_id;
              counter = r.counter;
              ticks = rem_32 (nb.uptime_ticks s);
            }),
      )

module _ {K : Type 0} (nb : NetBuf K) where
  set_field-none :
      (change : PacketMetadata → PacketMetadata) (b : Option Ptr) (s : K)
      → weave_packet_get_meta nb b s ≡ none
      → set_field nb change b s ≡ (neg einval, s)
  unfolding set_field
  set_field-none change none s h = refl
  set_field-none change (some b) s h = rw (h, set_field) refl

  get_field-none :
      (field : PacketMetadata → ℕ) (b : Option Ptr) (out : Bool) (s : K)
      → weave_packet_get_meta nb b s ≡ none
      → get_field nb field b out s ≡ none
  unfolding get_field
  get_field-none field b out s h = rw (h, get_field) refl

  -- Without valid metadata every setter returns -EINVAL and changes nothing, and every getter
  -- returns -EINVAL.
  pub accessors-none :
      (b : Option Ptr) (s : K) (v : ℕ) (out : Bool)
      → weave_packet_get_meta nb b s ≡ none
      → (weave_packet_set_id nb b v s ≡ (neg einval, s))
        × (weave_packet_set_client_id nb b v s ≡ (neg einval, s))
        × (weave_packet_set_counter nb b v s ≡ (neg einval, s))
        × (weave_packet_set_timestamp_ticks nb b v s ≡ (neg einval, s))
        × (weave_packet_update_timestamp nb b s ≡ (neg einval, s))
        × (weave_packet_get_id nb b out s ≡ none)
        × (weave_packet_get_client_id nb b out s ≡ none)
        × (weave_packet_get_counter nb b out s ≡ none)
        × (weave_packet_get_timestamp_ticks nb b out s ≡ none)
  unfolding weave_packet_set_id weave_packet_set_client_id weave_packet_set_counter
      weave_packet_set_timestamp_ticks weave_packet_update_timestamp weave_packet_get_id
      weave_packet_get_client_id weave_packet_get_counter weave_packet_get_timestamp_ticks
  accessors-none b s v out h = (
    set_field-none (λ m. record m { packet_id = v }) b s h,
    set_field-none (λ m. record m { client_id = v }) b s h,
    set_field-none (λ m. record m { counter = v }) b s h,
    set_field-none (λ m. record m { ticks = v }) b s h,
    set_field-none (λ m. record m { ticks = nb.uptime_ticks s % 2 ^ 32 }) b s h,
    get_field-none (λ m. m.packet_id) b out s h,
    get_field-none (λ m. m.client_id) b out s h,
    get_field-none (λ m. m.counter) b out s h,
    get_field-none (λ m. m.ticks) b out s h,
  )
