-- ===== src/Shell/Hex.antt =====
-- Bytes printed in hexadecimal are read back.
use zephyr_io.Prelude.{
  ℕ, ◌+◌, ◌*◌, ◌/◌, ◌%◌, ◌≡◌, ◌<◌, refl, ap, ◌∙◌, List, [], ◌∷◌, false, arith, length,
}
use zephyr_io.Shell.Text.{
  Text, digit_value, scan, skip_space, split_sign, starts_hex, magnitude, strtoul, strtoul-unsigned,
  to_ulong, hex_digit, hex_bytes,
}

-- The loop of `cmd_reg_bulkw`: each two characters are a byte.
unfoldable pub bytes_of_hex : Text → List ℕ
unfolding strtoul
bytes_of_hex [] = []
bytes_of_hex (c ∷ []) = []
bytes_of_hex (c ∷ d ∷ text) = (strtoul (c ∷ d ∷ []) 16 % 256) ∷ bytes_of_hex text

abbrev pub AllBytes : List ℕ → Type 0
AllBytes [] = Unit
AllBytes (b ∷ bs) = (b < 256) × AllBytes bs

digit_value-hex_digit : (d : ℕ) → d < 16 → digit_value (hex_digit d) ≡ d
unfolding digit_value hex_digit
digit_value-hex_digit d h = ground arith

-- A hexadecimal digit is no space, no sign and no x.
hex_digit-unsigned :
    (d : ℕ) (text : Text)
    → d < 16
    → split_sign (skip_space (hex_digit d ∷ text)) ≡ (false, hex_digit d ∷ text)
unfolding split_sign skip_space hex_digit
hex_digit-unsigned d text h = ground arith

no_prefix : (c d : ℕ) → d < 16 → starts_hex (c ∷ hex_digit d ∷ []) ≡ false
unfolding starts_hex hex_digit
no_prefix c d h = ground arith

scan-two : (c d : ℕ) → c < 16 → d < 16 → scan 16 (hex_digit c ∷ hex_digit d ∷ []) 0 ≡ 16 * c + d
unfolding scan
scan-two c d hc hd = rw (digit_value-hex_digit c hc, digit_value-hex_digit d hd) (ground arith)

magnitude-two :
    (c d : ℕ) → c < 16 → d < 16 → magnitude 16 (hex_digit c ∷ hex_digit d ∷ []) ≡ 16 * c + d
unfolding magnitude
magnitude-two c d hc hd = rw (no_prefix (hex_digit c) d hd) (scan-two c d hc hd)

strtoul-two : (c d : ℕ) → c < 16 → d < 16 → strtoul (hex_digit c ∷ hex_digit d ∷ []) 16 ≡ 16 * c + d
strtoul-two c d hc hd =
    strtoul-unsigned (hex_digit c ∷ hex_digit d ∷ []) 16
      (hex_digit-unsigned c (hex_digit d ∷ []) hc)
    ∙ ap (to_ulong false) (magnitude-two c d hc hd)
    ∙ unfold to_ulong in ground arith

byte_back : (b : ℕ) → b < 256 → strtoul (hex_digit (b / 16) ∷ hex_digit (b % 16) ∷ []) 16 % 256 ≡ b
byte_back b h =
    ap (λ n. n % 256) (strtoul-two (b / 16) (b % 16) (omega arith) (omega arith)) ∙ omega arith

-- The text of any bytes is read back as these bytes.
pub bytes_of_hex-hex_bytes : (bs : List ℕ) → AllBytes bs → bytes_of_hex (hex_bytes bs) ≡ bs
unfolding bytes_of_hex hex_bytes
bytes_of_hex-hex_bytes [] all = refl
bytes_of_hex-hex_bytes (b ∷ bs) (h, all) =
    ap (λ c. c ∷ bytes_of_hex (hex_bytes bs)) (byte_back b h)
    ∙ ap (λ cs. b ∷ cs) (bytes_of_hex-hex_bytes bs all)

pub length-hex_bytes : (bs : List ℕ) → length (hex_bytes bs) ≡ 2 * length bs
unfolding hex_bytes
length-hex_bytes [] = refl
length-hex_bytes (b ∷ bs) = omega (arith, length-hex_bytes bs)
