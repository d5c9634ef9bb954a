-- ===== src/Table/Guarded.antt =====
-- What the checks of a write by address protect: read-only registers and the ranges of all.
use zephyr_io.Prelude.{
  ℕ, zero, suc, ◌+◌, ◌≡◌, ◌⊎◌, ◌≤◌, ◌<◌, inl, inr, refl, ap, sym, ◌∙◌, List, [], ◌∷◌, ◌++◌, Bool,
  true, false, ℤ, pos, neg, erofs, erange, arith, length, take, drop, ◌&&◌, not, if◌then◌else◌,
}
use mathlib.Core.Path.{subst}
use zephyr_io.World.{copy_bytes}
use zephyr_io.Table.Value.{
  SettingValue, SettingReg, register_type_size, settings_reg_validate_range, read_value_from_mem,
}
use zephyr_io.Table.Areas.{to_u16, ranges_overlap}
use zephyr_io.Table.Layout.{Apart, overlap-Apart}
use zephyr_io.Table.Access.{touches, check_reg_write_access, validate_reg_write, write_at}

read_before :
    (s o off : ℕ) (bs ys : List ℕ)
    → o + s ≤ off
    → off ≤ length bs
    → take s (drop o (take off bs ++ ys)) ≡ take s (drop o bs)
read_before zero o off bs ys h1 h2 = refl
read_before (suc s) o zero bs ys h1 h2 = absurd (omega arith)
read_before (suc s) o (suc off) [] ys h1 h2 = absurd (omega arith)
read_before (suc s) zero (suc off) (b ∷ bs) ys h1 h2 =
    ap (λ r. b ∷ r) (read_before s zero off bs ys (omega arith) (omega arith))
read_before (suc s) (suc o) (suc off) (b ∷ bs) ys h1 h2 =
    read_before (suc s) o off bs ys (omega arith) (omega arith)

skip_copied :
    (o n : ℕ) (bs src : List ℕ)
    → n ≤ o
    → n ≤ length src
    → n ≤ length bs
    → drop o (copy_bytes bs src n) ≡ drop o bs
skip_copied o zero bs src h1 h2 h3 = refl
skip_copied zero (suc n) bs src h1 h2 h3 = absurd (omega arith)
skip_copied (suc o) (suc n) [] src h1 h2 h3 = absurd (omega arith)
skip_copied (suc o) (suc n) (b ∷ bs) [] h1 h2 h3 = absurd (omega arith)
skip_copied (suc o) (suc n) (b ∷ bs) (c ∷ src) h1 h2 h3 =
    skip_copied o n bs src (omega arith) (omega arith) (omega arith)

skip_written :
    (o off n : ℕ) (bs src : List ℕ)
    → off + n ≤ o
    → n ≤ length src
    → off + n ≤ length bs
    → drop o (write_at bs off src n) ≡ drop o bs
skip_written o zero n bs src h1 h2 h3 = skip_copied o n bs src (omega arith) h2 (omega arith)
skip_written zero (suc off) n bs src h1 h2 h3 = absurd (omega arith)
skip_written (suc o) (suc off) n [] src h1 h2 h3 = absurd (omega arith)
skip_written (suc o) (suc off) n (b ∷ bs) src h1 h2 h3 =
    skip_written o off n bs src (omega arith) h2 (omega arith)

-- The value of a register in the bytes of a struct.
abbrev pub value_in : SettingReg → List ℕ → SettingValue
value_in r bs = read_value_from_mem r.type (drop r.offset bs) []

pub value_in-Apart :
    (r : SettingReg) (off n : ℕ) (bs src : List ℕ)
    → Apart off (off + n) r.offset (r.offset + register_type_size r.type)
    → n ≤ length src
    → off + n ≤ length bs
    → value_in r (write_at bs off src n) ≡ value_in r bs
unfolding read_value_from_mem
value_in-Apart r off n bs src (inl h) h2 h3 =
    ap (λ v. v ++ drop (register_type_size r.type) [])
      (read_before (register_type_size r.type) r.offset off bs (copy_bytes (drop off bs) src n) h
        (omega arith))
value_in-Apart r off n bs src (inr h) h2 h3 =
    ap (λ v. take (register_type_size r.type) v ++ drop (register_type_size r.type) [])
      (skip_written r.offset off n bs src h h2 h3)

-- A register that lies at its address, inside the space of 16 bits.
abbrev pub IsPlaced : SettingReg → Type 0
IsPlaced r = (r.addr ≡ r.offset) × (r.addr + register_type_size r.type < 65536)

abbrev pub AllPlaced : List SettingReg → Type 0
AllPlaced [] = Unit
AllPlaced (r ∷ regs) = IsPlaced r × AllPlaced regs

untouched-Apart :
    (off n : ℕ) (r : SettingReg)
    → off + n < 65536
    → IsPlaced r
    → touches off n r ≡ false
    → Apart off (off + n) r.offset (r.offset + register_type_size r.type)
unfolding touches
untouched-Apart off n r h pl t =
    let u : to_u16 (off + n) ≡ off + n = omega arith in
    let v : to_u16 (r.addr + register_type_size r.type) ≡ r.addr + register_type_size r.type =
      omega (arith, pl.1) in
    let e =
      sym (
        ap (λ x. ranges_overlap off x r.addr (to_u16 (r.addr + register_type_size r.type))) u
        ∙ ap (λ x. ranges_overlap off (off + n) r.addr x) v)
      ∙ t in
    subst (λ x. Apart off (off + n) x (x + register_type_size r.type)) pl.0
      (overlap-Apart off (off + n) r.addr (r.addr + register_type_size r.type) (omega arith) h
        (omega (arith, pl.1)) pl.1 e)

-- Every register holds a value of its range.
abbrev pub AllInRange : List SettingReg → List ℕ → Type 0
AllInRange [] bs = Unit
AllInRange (r ∷ regs) bs =
    (settings_reg_validate_range r (value_in r bs) ≡ true) × AllInRange regs bs

-- No read-only register differs in the two structs.
abbrev pub KeepsReadOnly : List SettingReg → List ℕ → List ℕ → Type 0
KeepsReadOnly [] bs cs = Unit
KeepsReadOnly (r ∷ regs) bs cs =
    (r.writable ≡ false → value_in r cs ≡ value_in r bs) × KeepsReadOnly regs bs cs

and_not :
    (b c : Bool) (d z : ℤ)
    → ((if b && not c then d else z) ≡ pos 0)
    → ¬ (d ≡ pos 0)
    → ((b ≡ false) ⊎ (c ≡ true)) × (z ≡ pos 0)
and_not true true d z h ne = (inr refl, h)
and_not true false d z h ne = absurd (ne h)
and_not false c d z h ne = (inl refl, h)

untouched-value :
    (r : SettingReg) (off n : ℕ) (bs src : List ℕ)
    → IsPlaced r
    → off + n < 65536
    → n ≤ length src
    → off + n ≤ length bs
    → touches off n r ≡ false
    → value_in r (write_at bs off src n) ≡ value_in r bs
untouched-value r off n bs src pl h1 h2 h3 t =
    value_in-Apart r off n bs src (untouched-Apart off n r h1 pl t) h2 h3

-- Registers that lie at their addresses, all in range: if validate_reg_write accepts the struct
-- with n bytes of it replaced, all registers are in range in that struct too, those that the write
-- touches and those that it does not.
pub write-AllInRange :
    (regs : List SettingReg) (off n : ℕ) (bs src : List ℕ)
    → AllPlaced regs
    → off + n < 65536
    → n ≤ length src
    → off + n ≤ length bs
    → AllInRange regs bs
    → validate_reg_write regs off n (write_at bs off src n) ≡ pos 0
    → AllInRange regs (write_at bs off src n)
unfolding validate_reg_write
write-AllInRange [] off n bs src pl h1 h2 h3 r ok = tt
write-AllInRange (reg ∷ regs) off n bs src pl h1 h2 h3 r ok =
    let now = write_at bs off src n in
    let (here, rest) =
      and_not (touches off n reg) (settings_reg_validate_range reg (value_in reg now)) (neg erange)
        (validate_reg_write regs off n now) ok (λ e. ground arith) in
    (
      elim here [
        | inl t ↦ rw (untouched-value reg off n bs src pl.0 h1 h2 h3 t) r.0
        | inr good ↦ good
      ],
      write-AllInRange regs off n bs src pl.1 h1 h2 h3 r.1 rest,
    )

-- Registers that lie at their addresses: if check_reg_write_access accepts a write of n bytes, it
-- changes the value of no read-only register.
pub write-KeepsReadOnly :
    (regs : List SettingReg) (off n : ℕ) (bs src : List ℕ)
    → AllPlaced regs
    → off + n < 65536
    → n ≤ length src
    → off + n ≤ length bs
    → check_reg_write_access regs off n ≡ pos 0
    → KeepsReadOnly regs bs (write_at bs off src n)
unfolding check_reg_write_access
write-KeepsReadOnly [] off n bs src pl h1 h2 h3 ok = tt
write-KeepsReadOnly (reg ∷ regs) off n bs src pl h1 h2 h3 ok =
    let (here, rest) =
      and_not (touches off n reg) reg.writable (neg erofs) (check_reg_write_access regs off n) ok
        (λ e. ground arith) in
    (
      (λ ro. elim here [
        | inl t ↦ untouched-value reg off n bs src pl.0 h1 h2 h3 t
        | inr w ↦ absurd (ground (arith, w, ro))
      ]),
      write-KeepsReadOnly regs off n bs src pl.1 h1 h2 h3 rest,
    )
