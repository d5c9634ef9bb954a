-- ===== src/Packet/Meta.antt =====
-- The bytes of the metadata, and the test of weave_packet_get_meta for metadata that is not there.
use zephyr_io.Prelude.{
  ℕ, zero, suc, ◌+◌, ◌*◌, ◌/◌, ◌%◌, ◌≡◌, ◌<◌, ◌≤◌, length, length-append, length-drop, List, [],
  ◌∷◌, ◌++◌, Bool, arith, drop, get_or, ◌==◌, ◌&&◌,
}
use zephyr_io.Packet.{PacketMetadata, to_bytes, of_bytes, memcmp_eq, weave_packet_meta_is_zero}

-- The values that the fields of the struct can hold.
pub record InRange (m : PacketMetadata) : Type 0 where
  pub packet_id : m.packet_id < 256
  pub client_id : m.client_id < 256
  pub counter : m.counter < 65536
  pub ticks : m.ticks < 4294967296

-- The list holds bytes.
abbrev pub IsBytes : List ℕ → Type 0
IsBytes [] = Unit
IsBytes (b ∷ bs) = (b < 256) × IsBytes bs

byte : (n : ℕ) → n < 256 → n % 256 ≡ n
byte n h = omega arith

split_16 : (n : ℕ) → n < 65536 → n % 256 + 256 * (n / 256 % 256) ≡ n
split_16 n h = omega arith

split_32 :
    (n : ℕ)
    → n < 4294967296
    → n % 256 + 256 * (n / 256 % 256) + 65536 * (n / 65536 % 256) + 16777216 * (n / 16777216 % 256)
      ≡ n
split_32 n h = omega arith

of_fields : ℕ → ℕ → ℕ → ℕ → PacketMetadata
of_fields a b c d = record { packet_id = a; client_id = b; counter = c; ticks = d }

of_fields_cong :
    {a a' b b' c c' d d' : ℕ}
    → a ≡ a'
    → b ≡ b'
    → c ≡ c'
    → d ≡ d'
    → of_fields a b c d ≡ of_fields a' b' c' d'
of_fields_cong e1 e2 e3 e4 = cc

-- Metadata whose fields are in the ranges of their C types, written over the start of the user
-- data, reads back.
pub of-to : (m : PacketMetadata) (rest : List ℕ) → InRange m → of_bytes (to_bytes m ++ rest) ≡ m
unfolding of_bytes to_bytes of_fields
of-to m rest r =
    of_fields_cong (byte m.packet_id r.packet_id) (byte m.client_id r.client_id)
      (split_16 m.counter r.counter) (split_32 m.ticks r.ticks)

abbrev pub all_zero : PacketMetadata → Bool
all_zero m = m.packet_id == 0 && m.client_id == 0 && m.counter == 0 && m.ticks == 0

-- Metadata whose fields are in the ranges of their C types counts as missing exactly if every
-- field is 0.
pub is_zero-to_bytes :
    (m : PacketMetadata) → InRange m → weave_packet_meta_is_zero (to_bytes m) ≡ all_zero m
unfolding weave_packet_meta_is_zero memcmp_eq to_bytes
is_zero-to_bytes m r =
    let h0 = r.packet_id in
    let h1 = r.client_id in let h2 = r.counter in let h3 = r.ticks in ground arith

pub get_or-IsBytes : (bs : List ℕ) (i : ℕ) → IsBytes bs → get_or bs i 0 < 256
get_or-IsBytes [] i h = omega arith
get_or-IsBytes (b ∷ bs) zero h = h.0
get_or-IsBytes (b ∷ bs) (suc i) h = get_or-IsBytes bs i h.1

pub of_bytes-InRange : (bs : List ℕ) → IsBytes bs → InRange (of_bytes bs)
unfolding of_bytes
of_bytes-InRange bs h =
    let at = get_or-IsBytes bs in
    record {
      packet_id = at 0 h;
      client_id = at 1 h;
      counter = omega (arith, at 2 h, at 3 h);
      ticks = omega (arith, at 4 h, at 5 h, at 6 h, at 7 h);
    }

drop-IsBytes : (n : ℕ) (bs : List ℕ) → IsBytes bs → IsBytes (drop n bs)
drop-IsBytes zero bs h = h
drop-IsBytes (suc n) [] h = h
drop-IsBytes (suc n) (b ∷ bs) h = drop-IsBytes n bs h.1

rem_256 : (n : ℕ) → n % 256 < 256
rem_256 n = omega arith

-- What a write through the pointer to the metadata leaves in the user data.
pub written-IsBytes :
    (m : PacketMetadata) (bs : List ℕ) → IsBytes bs → IsBytes (to_bytes m ++ drop 8 bs)
unfolding to_bytes
written-IsBytes m bs h = (
  rem_256 _,
  (
    rem_256 _,
    (
      rem_256 _,
      (rem_256 _, (rem_256 _, (rem_256 _, (rem_256 _, (rem_256 _, drop-IsBytes 8 bs h))))),
    ),
  ),
)

pub length-written :
    (m : PacketMetadata) (bs : List ℕ)
    → 8 ≤ length bs
    → length (to_bytes m ++ drop 8 bs) ≡ length bs
unfolding to_bytes
length-written m bs h = omega (arith, length-append (to_bytes m) (drop 8 bs), length-drop 8 bs)
