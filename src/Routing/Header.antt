-- ===== src/Routing/Header.antt =====
-- The header that protocol.c writes is the one that it reads.
use zephyr_io.Prelude.{ℕ, ◌≡◌, ◌<◌, List, ◌++◌, arith}
use zephyr_io.Table.Value.{unsigned}
use zephyr_io.Routing.Protocol.{PacketHeader, le_bytes, header_bytes, header_of}

-- The values that the fields of the struct can hold.
pub record HeaderInRange (h : PacketHeader) : Type 0 where
  pub packet_id : h.packet_id < 256
  pub reserved : h.reserved < 256
  pub counter : h.counter < 65536
  pub content_length : h.content_length < 65536
  pub timestamp_ns : h.timestamp_ns < 18446744073709551616

read-le_bytes1 : (n : ℕ) (rest : List ℕ) → n < 256 → unsigned 1 (le_bytes 1 n ++ rest) ≡ n
unfolding unsigned le_bytes
read-le_bytes1 n rest h = omega arith

read-le_bytes2 : (n : ℕ) (rest : List ℕ) → n < 65536 → unsigned 2 (le_bytes 2 n ++ rest) ≡ n
unfolding unsigned le_bytes
read-le_bytes2 n rest h = omega arith

read-le_bytes8 :
    (n : ℕ) (rest : List ℕ) → n < 18446744073709551616 → unsigned 8 (le_bytes 8 n ++ rest) ≡ n
unfolding unsigned le_bytes
read-le_bytes8 n rest h = omega arith

fields : ℕ → ℕ → ℕ → ℕ → ℕ → PacketHeader
fields a b c d e = record {
  packet_id = a;
  reserved = b;
  counter = c;
  content_length = d;
  timestamp_ns = e;
}

fields_cong :
    {a a' b b' c c' d d' e e' : ℕ}
    → a ≡ a'
    → b ≡ b'
    → c ≡ c'
    → d ≡ d'
    → e ≡ e'
    → fields a b c d e ≡ fields a' b' c' d' e'
fields_cong e1 e2 e3 e4 e5 = cc

-- Round trip: a header whose fields are in the ranges of their C types, written before a payload,
-- reads back.
pub header_of-header_bytes :
    (h : PacketHeader) (payload : List ℕ)
    → HeaderInRange h
    → header_of (header_bytes h ++ payload) ≡ h
unfolding header_of header_bytes le_bytes fields
header_of-header_bytes h payload r =
    fields_cong (read-le_bytes1 h.packet_id payload r.packet_id)
      (read-le_bytes1 h.reserved payload r.reserved) (read-le_bytes2 h.counter payload r.counter)
      (read-le_bytes2 h.content_length payload r.content_length)
      (read-le_bytes8 h.timestamp_ns payload r.timestamp_ns)
