-- ===== src/Shell/Text.antt =====
-- The numbers of C's standard library in texts: strtoul and strtol, and printf's %u, %d, %x.
-- A text is the list of its ASCII codes; unsigned long has 32 bits.
use zephyr_io.Prelude.{
  ap, ◌≡◌, refl, ℕ, zero, suc, ◌+◌, ◌-◌, ◌*◌, ◌/◌, ◌%◌, ◌^◌, List, [], ◌∷◌, ◌++◌, Bool, true, false,
  ◌&&◌, ◌||◌, drop, ltb, leb, ◌==◌, if◌then◌else◌,
}

abbrev pub Text : Type 0
Text = List ℕ

-- The value of a digit; 36 for any other character.
unfoldable pub digit_value : ℕ → ℕ
digit_value c =
    if leb b'0' c && leb c b'9'
    then c - b'0'
    else if leb b'a' c && leb c b'z'
    then c - b'a' + 10
    else if leb b'A' c && leb c b'Z'
    then c - b'A' + 10
    else 36

-- The digits up to the first character that is none, behind a number.
unfoldable pub scan : ℕ → Text → ℕ → ℕ
unfolding digit_value
scan base [] n = n
scan base (c ∷ text) n =
    let rest = scan base text (n * base + digit_value c) in
    if ltb (digit_value c) base then rest else n

abbrev is_space : ℕ → Bool
is_space c = c == b' ' || (leb 9 c && leb c 13)

unfoldable pub skip_space : Text → Text
skip_space [] = []
skip_space (c ∷ text) = let rest = skip_space text in if is_space c then rest else c ∷ text

-- Whether there is a minus, and the text behind the sign.
unfoldable pub split_sign : Text → Bool × Text
split_sign [] = (false, [])
split_sign (c ∷ text) =
    if c == b'-' then (true, text) else if c == b'+' then (false, text) else (false, c ∷ text)

unfoldable pub starts_hex : Text → Bool
starts_hex [] = false
starts_hex (c ∷ []) = false
starts_hex (c ∷ x ∷ text) = c == b'0' && (x == b'x' || x == b'X')

unfoldable pub starts_octal : Text → Bool
starts_octal [] = false
starts_octal (c ∷ text) = c == b'0'

-- The number without its sign; base 0 means that a prefix tells the base.
unfoldable pub magnitude : ℕ → Text → ℕ
unfolding scan starts_hex starts_octal
magnitude base text =
    if starts_hex text && (base == 0 || base == 16)
    then scan 16 (drop 2 text) 0
    else if base == 0
    then if starts_octal text then scan 8 text 0 else scan 10 text 0
    else scan base text 0

abbrev pub ulong_max : ℕ
ulong_max = 2 ^ 32 - 1

abbrev pub long_max : ℕ
long_max = 2 ^ 31 - 1

-- A number with its sign: out of range it is the greatest number.
unfoldable pub to_ulong : Bool → ℕ → ℕ
to_ulong negative n =
    if ltb ulong_max n then ulong_max else if negative then (2 ^ 32 - n) % 2 ^ 32 else n

-- The same for long, in two's complement.
unfoldable pub to_long : Bool → ℕ → ℕ
to_long true n = if ltb (2 ^ 31) n then 2 ^ 31 else (2 ^ 32 - n) % 2 ^ 32
to_long false n = if ltb long_max n then long_max else n

unfoldable pub strtoul : Text → ℕ → ℕ
unfolding skip_space split_sign magnitude to_ulong
strtoul text base =
    let (negative, rest) = split_sign (skip_space text) in to_ulong negative (magnitude base rest)

unfoldable pub strtol : Text → ℕ → ℕ
unfolding skip_space split_sign magnitude to_long
strtol text base =
    let (negative, rest) = split_sign (skip_space text) in to_long negative (magnitude base rest)

-- A text without a sign.
pub strtoul-unsigned :
    (text : Text) (base : ℕ)
    → split_sign (skip_space text) ≡ (false, text)
    → strtoul text base ≡ to_ulong false (magnitude base text)
unfolding strtoul
strtoul-unsigned text base e = ap (λ (s : Bool × Text). to_ulong s.0 (magnitude base s.1)) e

pub strtol-unsigned :
    (text : Text) (base : ℕ)
    → split_sign (skip_space text) ≡ (false, text)
    → strtol text base ≡ to_long false (magnitude base text)
unfolding strtol
strtol-unsigned text base e = ap (λ (s : Bool × Text). to_long s.0 (magnitude base s.1)) e

pub strtol-negative :
    (text : Text) (base : ℕ) → strtol (b'-' ∷ text) base ≡ to_long true (magnitude base text)
unfolding strtol
strtol-negative text base = refl

-- The decimal digits of a number with at most so many, in front of a text.
unfoldable pub digits : ℕ → ℕ → Text → Text
digits zero n text = text
digits (suc k) n text =
    let rest = digits k (n / 10) ((b'0' + n % 10) ∷ text) in if n == 0 then text else rest

-- %u and %llu: a number of 64 bits has at most 20 digits.
unfoldable pub decimal : ℕ → Text
unfolding digits
decimal n = if n == 0 then b'0' ∷ [] else digits 20 n []

-- %d and %lld of an integer in two's complement, `half` is the half of its range.
unfoldable pub signed_decimal : ℕ → ℕ → Text
unfolding decimal
signed_decimal half n = if ltb n half then decimal n else b'-' ∷ decimal (half + half - n)

unfoldable pub hex_digit : ℕ → ℕ
hex_digit d = if ltb d 10 then b'0' + d else b'a' + (d - 10)

-- %02x of a byte.
unfoldable pub hex_byte : ℕ → Text
unfolding hex_digit
hex_byte b = hex_digit (b / 16) ∷ hex_digit (b % 16) ∷ []

unfoldable pub hex_bytes : List ℕ → Text
unfolding hex_byte
hex_bytes [] = []
hex_bytes (b ∷ bs) = hex_byte b ++ hex_bytes bs

-- %04x of a uint16_t.
unfoldable pub hex_u16 : ℕ → Text
unfolding hex_byte
hex_u16 n = hex_byte (n / 256) ++ hex_byte (n % 256)
