-- ===== src/Shell/Decimal.antt =====
-- A printed number is read back.
use zephyr_io.Prelude.{
  ℕ, zero, suc, ◌+◌, ◌-◌, ◌*◌, ◌/◌, ◌%◌, ◌^◌, ◌≡◌, ◌≤◌, ◌<◌, refl, sym, ap, ◌∙◌, inl, inr, [], ◌∷◌,
  true, false, arith, ◌==◌, Bool-cases, if◌then◌else◌,
}
use zephyr_io.Shell.Text.{
  Text, digit_value, scan, skip_space, split_sign, starts_hex, starts_octal, magnitude, strtoul,
  strtol, strtoul-unsigned, strtol-unsigned, strtol-negative, to_ulong, to_long, digits, decimal,
}

abbrev tens : ℕ → ℕ
tens zero = 1
tens (suc k) = 10 * tens k

scan-digit : (n : ℕ) (text : Text) → scan 10 ((b'0' + n % 10) ∷ text) (n / 10) ≡ scan 10 text n
unfolding scan digit_value
scan-digit n text = ground arith

scan-digits : (k n : ℕ) (text : Text) → n < tens k → scan 10 (digits k n text) 0 ≡ scan 10 text n
unfolding digits
scan-digits zero n text lt = ap (scan 10 text) (omega arith)
scan-digits (suc k) n text lt = elim (Bool-cases (n == 0)) [
  | inl e ↦ rw e (ap (scan 10 text) (ground arith))
  | inr e ↦ rw e (scan-digits k (n / 10) ((b'0' + n % 10) ∷ text) (omega arith) ∙ scan-digit n text)
]

-- A text that starts with a digit other than 0.
record StartsPositive (text : Text) : Type 0 where
  first : ℕ
  others : Text
  splits : text ≡ first ∷ others
  from_one : b'1' ≤ first
  to_nine : first ≤ b'9'

digits-StartsPositive :
    (k n : ℕ) (text : Text) → 0 < n → n < tens k → StartsPositive (digits k n text)
unfolding digits
digits-StartsPositive zero n text h lt = absurd (omega arith)
digits-StartsPositive (suc k) n text h lt = elim (Bool-cases (n == 0)) [
  | inl e ↦ absurd (ground arith)
  | inr e ↦ rw e (elim (Bool-cases (n / 10 == 0)) [
    | inl z ↦ record {
      first = b'0' + n % 10;
      others = text;
      splits = ends k (n / 10) ((b'0' + n % 10) ∷ text) (ground arith);
      from_one = ground arith;
      to_nine = omega arith;
    }
    | inr z ↦ digits-StartsPositive k (n / 10) ((b'0' + n % 10) ∷ text) (ground arith) (omega arith)
  ])
]
  where
    ends : (k n : ℕ) (text : Text) → n ≡ 0 → digits k n text ≡ text
    ends zero n text z = refl
    ends (suc k) n text z = ground arith

magnitude-digit :
    (c : ℕ) (text : Text) → b'1' ≤ c → c ≤ b'9' → magnitude 0 (c ∷ text) ≡ scan 10 (c ∷ text) 0
unfolding magnitude starts_hex starts_octal
magnitude-digit c [] lo hi = ground arith
magnitude-digit c (x ∷ text) lo hi = ground arith

magnitude-digits : (k n : ℕ) → 0 < n → n < tens k → magnitude 0 (digits k n []) ≡ n
magnitude-digits k n pos lt =
    let s = digits-StartsPositive k n [] pos lt in
    ap (magnitude 0) s.splits
    ∙ magnitude-digit s.first s.others s.from_one s.to_nine
    ∙ ap (λ t. scan 10 t 0) (sym s.splits)
    ∙ scan-digits k n [] lt
    ∙ unfold scan in refl

magnitude-zero : magnitude 0 (b'0' ∷ []) ≡ 0
unfolding magnitude
magnitude-zero = refl

decimal-zero : (n : ℕ) → (n == 0) ≡ true → decimal n ≡ b'0' ∷ []
unfolding decimal
decimal-zero n e = ap (λ b. if b then b'0' ∷ [] else digits 20 n []) e

decimal-digits : (n : ℕ) → (n == 0) ≡ false → decimal n ≡ digits 20 n []
unfolding decimal
decimal-digits n e = ap (λ b. if b then b'0' ∷ [] else digits 20 n []) e

magnitude-decimal : (n : ℕ) → n < 2 ^ 64 → magnitude 0 (decimal n) ≡ n
magnitude-decimal n lt = elim (Bool-cases (n == 0)) [
  | inl e ↦ ap (magnitude 0) (decimal-zero n e) ∙ magnitude-zero ∙ ground arith
  | inr e ↦
      ap (magnitude 0) (decimal-digits n e) ∙ magnitude-digits 20 n (ground arith) (omega arith)
]

-- A digit is neither a space nor a sign.
unsigned_text :
    (c : ℕ) (text : Text) → b'0' ≤ c → split_sign (skip_space (c ∷ text)) ≡ (false, c ∷ text)
unfolding split_sign skip_space
unsigned_text c text h = ground arith

decimal-unsigned : (n : ℕ) → n < 2 ^ 64 → split_sign (skip_space (decimal n)) ≡ (false, decimal n)
decimal-unsigned n lt = elim (Bool-cases (n == 0)) [
  | inl e ↦
      ap (λ t. split_sign (skip_space t)) (decimal-zero n e)
      ∙ unsigned_text b'0' [] (omega arith)
      ∙ ap (λ t. (false, t)) (sym (decimal-zero n e))
  | inr e ↦
      let s = digits-StartsPositive 20 n [] (ground arith) (omega arith) in
      let splits = decimal-digits n e ∙ s.splits in
      ap (λ t. split_sign (skip_space t)) splits
      ∙ unsigned_text s.first s.others (omega (arith, s.from_one))
      ∙ ap (λ t. (false, t)) (sym splits)
]

pub strtoul-decimal : (n : ℕ) → n < 2 ^ 32 → strtoul (decimal n) 0 ≡ n
strtoul-decimal n lt =
    strtoul-unsigned (decimal n) 0 (decimal-unsigned n (omega arith))
    ∙ ap (to_ulong false) (magnitude-decimal n (omega arith))
    ∙ unfold to_ulong in ground arith

pub strtol-decimal : (n : ℕ) → n < 2 ^ 31 → strtol (decimal n) 0 ≡ n
strtol-decimal n lt =
    strtol-unsigned (decimal n) 0 (decimal-unsigned n (omega arith))
    ∙ ap (to_long false) (magnitude-decimal n (omega arith))
    ∙ unfold to_long in ground arith

pub strtol-minus : (n : ℕ) → 0 < n → n ≤ 2 ^ 31 → strtol (b'-' ∷ decimal n) 0 ≡ 2 ^ 32 - n
strtol-minus n h le =
    strtol-negative (decimal n) 0
    ∙ ap (to_long true) (magnitude-decimal n (omega arith))
    ∙ unfold to_long in ground arith

-- The same with base 10.
scan-zero : scan 10 (b'0' ∷ []) 0 ≡ 0
unfolding scan
scan-zero = refl

scan-decimal : (n : ℕ) → n < 2 ^ 64 → scan 10 (decimal n) 0 ≡ n
scan-decimal n lt = elim (Bool-cases (n == 0)) [
  | inl e ↦ ap (λ t. scan 10 t 0) (decimal-zero n e) ∙ scan-zero ∙ ground arith
  | inr e ↦
      ap (λ t. scan 10 t 0) (decimal-digits n e)
      ∙ scan-digits 20 n [] (omega arith)
      ∙ unfold scan in refl
]

decimal_base : (text : Text) → magnitude 10 text ≡ scan 10 text 0
unfolding magnitude
decimal_base text = ground arith

pub strtoul-decimal10 : (n : ℕ) → n < 2 ^ 32 → strtoul (decimal n) 10 ≡ n
strtoul-decimal10 n lt =
    strtoul-unsigned (decimal n) 10 (decimal-unsigned n (omega arith))
    ∙ ap (to_ulong false) (decimal_base (decimal n) ∙ scan-decimal n (omega arith))
    ∙ unfold to_ulong in ground arith
