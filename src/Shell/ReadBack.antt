-- ===== src/Shell/ReadBack.antt =====
-- What settings_shell.c prints for an integer register is accepted as the same value.
use zephyr_io.Prelude.{
  ℕ, zero, suc, ◌+◌, ◌*◌, ◌%◌, ◌/◌, ◌-◌, ◌^◌, ◌≡◌, ◌≤◌, ◌<◌, ◌⊎◌, refl, ap, sym, ◌∙◌, inl, inr,
  some, List, [], ◌∷◌, ◌++◌, arith, length, replicate, ltb, Bool-cases,
}
use zephyr_io.Table.Value.{
  RegisterType, SettingValue, register_type_size, unsigned, st_u8, st_u16, st_u32, st_u64, st_i8,
  st_i16, st_i32, st_i64, st_f32, st_f64, st_bool, st_type_count,
}
use zephyr_io.Routing.Protocol.{le_bytes}
use zephyr_io.Shell.Text.{strtol, signed_decimal}
use zephyr_io.Shell.Decimal.{strtoul-decimal, strtol-decimal, strtol-minus}
use zephyr_io.Shell.Hex.{AllBytes}
use zephyr_io.Shell.Values.{Floats, in_union, print_value, parse_value, IsShort}

abbrev range : ℕ → ℕ
range zero = 1
range (suc k) = 256 * range k

unsigned-range : (k : ℕ) (bs : List ℕ) → AllBytes bs → unsigned k bs < range k
unfolding unsigned
unsigned-range zero bs all = omega arith
unsigned-range (suc k) [] all = omega (arith, unsigned-range k [] tt)
unsigned-range (suc k) (b ∷ bs) (h, all) = omega (arith, unsigned-range k bs all)

pub le_bytes-unsigned :
    (bs : List ℕ) → AllBytes bs → le_bytes (length bs) (unsigned (length bs) bs) ≡ bs
unfolding unsigned le_bytes
le_bytes-unsigned [] all = refl
le_bytes-unsigned (b ∷ bs) (h, all) =
    let u = unsigned (length bs) bs in
    ap (λ c. c ∷ le_bytes (length bs) ((b + 256 * u) / 256)) (omega arith)
    ∙ ap (λ n. b ∷ le_bytes (length bs) n) (omega arith)
    ∙ ap (λ cs. b ∷ cs) (le_bytes-unsigned bs all)

le_bytes-mod1 : (n m : ℕ) → n % 256 ≡ m % 256 → le_bytes 1 n ≡ le_bytes 1 m
unfolding le_bytes
le_bytes-mod1 n m h = ap (λ b. b ∷ []) h

le_bytes-mod2 : (n m : ℕ) → n % 65536 ≡ m % 65536 → le_bytes 2 n ≡ le_bytes 2 m
unfolding le_bytes
le_bytes-mod2 n m h =
    ap (λ b. b ∷ (n / 256) % 256 ∷ []) (omega arith) ∙ ap (λ b. m % 256 ∷ b ∷ []) (omega arith)

-- A number in two's complement is read as itself, or as itself with the sign in all of its 32 bits.
strtol-signed :
    (half n : ℕ)
    → half ≤ 2 ^ 31
    → n < half + half
    → (strtol (signed_decimal half n) 0 ≡ n)
      ⊎ (strtol (signed_decimal half n) 0 + (half + half) ≡ 2 ^ 32 + n)
unfolding signed_decimal
strtol-signed half n h lt = elim (Bool-cases (ltb n half)) [
  | inl e ↦ inl (rw e (strtol-decimal n (ground arith)))
  | inr e ↦ inr (rw e (omega (arith, strtol-minus (half + half - n) (ground arith) (ground arith))))
]

signed1 : (n : ℕ) → n < 256 → le_bytes 1 (strtol (signed_decimal (2 ^ 7) n) 0) ≡ le_bytes 1 n
signed1 n h = elim (strtol-signed (2 ^ 7) n (omega arith) (omega arith)) [
  | inl e ↦ le_bytes-mod1 _ n (omega (arith, e))
  | inr e ↦ le_bytes-mod1 _ n (omega (arith, e))
]

signed2 : (n : ℕ) → n < 65536 → le_bytes 2 (strtol (signed_decimal (2 ^ 15) n) 0) ≡ le_bytes 2 n
signed2 n h = elim (strtol-signed (2 ^ 15) n (omega arith) (omega arith)) [
  | inl e ↦ le_bytes-mod2 _ n (omega (arith, e))
  | inr e ↦ le_bytes-mod2 _ n (omega (arith, e))
]

signed4 : (n : ℕ) → n < 2 ^ 32 → le_bytes 4 (strtol (signed_decimal (2 ^ 31) n) 0) ≡ le_bytes 4 n
signed4 n h = elim (strtol-signed (2 ^ 31) n (omega arith) (omega arith)) [
  | inl e ↦ ap (le_bytes 4) e
  | inr e ↦ ap (le_bytes 4) (omega (arith, e))
]

-- The bytes of a whole value, read back into the union.
whole :
    (k n : ℕ) (val : SettingValue)
    → length val ≡ k
    → AllBytes val
    → le_bytes k n ≡ le_bytes k (unsigned k val)
    → in_union k n ≡ val ++ replicate (8 - k) 0
unfolding in_union
whole k n val len all h =
    ap (λ bs. bs ++ replicate (8 - k) 0)
      (h ∙ ap (λ i. le_bytes i (unsigned i val)) (sym len) ∙ le_bytes-unsigned val all)

module _ (fl : Floats) where
  -- A value of an integer type of at most 32 bits, printed as reg_read prints it, is read by
  -- reg_write as the same bytes, the rest of the union being 0.
  pub parse_value-print_value :
      (type : RegisterType) (val : SettingValue)
      → IsShort type
      → length val ≡ register_type_size type
      → AllBytes val
      → parse_value fl type (print_value fl type val)
        ≡ some (val ++ replicate (8 - register_type_size type) 0)
  unfolding parse_value print_value register_type_size
  parse_value-print_value st_u8 val s len all = ap some (
      whole 1 _ val len all
        (ap (le_bytes 1) (strtoul-decimal _ (omega (arith, unsigned-range 1 val all)))))
  parse_value-print_value st_u16 val s len all = ap some (
      whole 2 _ val len all
        (ap (le_bytes 2) (strtoul-decimal _ (omega (arith, unsigned-range 2 val all)))))
  parse_value-print_value st_u32 val s len all = ap some (
      whole 4 _ val len all
        (ap (le_bytes 4) (strtoul-decimal _ (omega (arith, unsigned-range 4 val all)))))
  parse_value-print_value st_i8 val s len all =
      ap some (whole 1 _ val len all (signed1 _ (unsigned-range 1 val all)))
  parse_value-print_value st_i16 val s len all =
      ap some (whole 2 _ val len all (signed2 _ (unsigned-range 2 val all)))
  parse_value-print_value st_i32 val s len all =
      ap some (whole 4 _ val len all (signed4 _ (unsigned-range 4 val all)))
  parse_value-print_value st_u64 val s len all = elim s [ ]
  parse_value-print_value st_i64 val s len all = elim s [ ]
  parse_value-print_value st_f32 val s len all = elim s [ ]
  parse_value-print_value st_f64 val s len all = elim s [ ]
  parse_value-print_value st_bool val s len all = elim s [ ]
  parse_value-print_value st_type_count val s len all = elim s [ ]
