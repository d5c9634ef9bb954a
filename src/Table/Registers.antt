-- ===== src/Table/Registers.antt =====
-- What the check of an area's registers at start establishes.
use zephyr_io.Prelude.{
  ℕ, ◌+◌, ◌≡◌, ◌↔◌, ◌≤◌, ◌<◌, refl, List, [], ◌∷◌, Bool, true, false, ℤ, pos, neg, einval, erange,
  arith, ltb, ◌||◌, not, if◌then◌else◌,
}
use zephyr_io.Table.Value.{SettingReg, settings_reg_validate_range, register_type_size}
use zephyr_io.Table.Areas.{reg_overlaps_any, validate_reg_area}
use zephyr_io.Table.Layout.{Apart, overlap-Apart, Apart-overlap}

-- A register inside its struct and its area, with a default of its range.
pub record RegFits (size : ℕ) (r : SettingReg) : Type 0 where
  pub in_struct : r.offset + register_type_size r.type ≤ size
  pub in_area : r.addr + register_type_size r.type ≤ size
  pub dflt : settings_reg_validate_range r r.dflt ≡ true

-- Two registers that share neither an address nor a byte of the struct.
pub record RegApart (a b : SettingReg) : Type 0 where
  pub by_addr :
      Apart a.addr (a.addr + register_type_size a.type) b.addr (b.addr + register_type_size b.type)
  pub by_offset :
      Apart a.offset
        (a.offset + register_type_size a.type)
        b.offset
        (b.offset + register_type_size b.type)

abbrev pub RegApartFromAll : SettingReg → List SettingReg → Type 0
RegApartFromAll a [] = Unit
RegApartFromAll a (b ∷ bs) = RegApart a b × RegApartFromAll a bs

abbrev pub WellFormed : ℕ → List SettingReg → Type 0
WellFormed size [] = Unit
WellFormed size (r ∷ regs) = RegFits size r × RegApartFromAll r regs × WellFormed size regs

or_or : {a b c : Bool} → (a || b || c) ≡ false → (a ≡ false) × (b ≡ false) × (c ≡ false)
or_or h = (ground arith, ground arith, ground arith)

all_fit_apart :
    (size : ℕ) (a : SettingReg) (regs : List SettingReg)
    → size < 65536
    → RegFits size a
    → WellFormed size regs
    → (reg_overlaps_any a regs ≡ false) ↔ RegApartFromAll a regs
unfolding reg_overlaps_any
all_fit_apart size a [] hs fa wf = ((λ h. tt), (λ h. refl))
all_fit_apart size a (b ∷ regs) hs fa wf =
    let (to, from) = all_fit_apart size a regs hs fa wf.2 in
    let na = register_type_size a.type in
    let nb = register_type_size b.type in
    let a1 : a.addr + na < 65536 = omega (arith, fa.in_area) in
    let a2 : a.offset + na < 65536 = omega (arith, fa.in_struct) in
    let b1 : b.addr + nb < 65536 = omega (arith, (wf.0).in_area) in
    let b2 : b.offset + nb < 65536 = omega (arith, (wf.0).in_struct) in
    (
      (λ h.
          let (h1, h2, h3) = or_or h in
          (
            record {
              by_addr =
                  overlap-Apart a.addr (a.addr + na) b.addr (b.addr + nb) (omega arith) a1
                    (omega arith) b1 h1;
              by_offset =
                  overlap-Apart a.offset (a.offset + na) b.offset (b.offset + nb) (omega arith) a2
                    (omega arith) b2 h2;
            },
            to h3,
          )),
      (λ h.
          rw
            (
              Apart-overlap a.addr (a.addr + na) b.addr (b.addr + nb) (omega arith) a1 (omega arith)
                  b1 (h.0).by_addr,
              Apart-overlap a.offset (a.offset + na) b.offset (b.offset + nb) (omega arith) a2
                  (omega arith) b2 (h.0).by_offset,
              from h.1,
            )
            refl),
    )

-- The chain of tests in the loop of `validate_reg_area`.
no_error :
    (size m n : ℕ) (o v : Bool) (z : ℤ)
    → ((if ltb size m
          then neg einval
          else if ltb size n
          then neg einval
          else if o
          then neg einval
          else if not v
          then neg erange
          else z)
        ≡ pos 0)
      ↔ ((m ≤ size) × (n ≤ size) × (o ≡ false) × (v ≡ true) × (z ≡ pos 0))
no_error size m n o v z = (
  (λ h. (ground arith, ground arith, ground arith, ground arith, ground arith)),
  (λ h. ground (arith, h.0, h.1, h.2, h.3, h.4)),
)

-- In an area that ends in the space of 16 bits, the check of the registers returns 0 exactly if
-- every register lies inside the struct and the area and has a default of its range, and no two
-- share an address or a byte of the struct.
pub validate_reg_area-WellFormed :
    (size : ℕ) (regs : List SettingReg)
    → size < 65536
    → (validate_reg_area size regs ≡ pos 0) ↔ WellFormed size regs
unfolding validate_reg_area
validate_reg_area-WellFormed size [] hs = ((λ h. tt), (λ h. refl))
validate_reg_area-WellFormed size (r ∷ regs) hs =
    let (to, from) = validate_reg_area-WellFormed size regs hs in
    let (to1, from1) =
      no_error size (r.offset + register_type_size r.type) (r.addr + register_type_size r.type)
        (reg_overlaps_any r regs) (settings_reg_validate_range r r.dflt)
        (validate_reg_area size regs) in
    (
      (λ h.
          let (h0, h1, h2, h3, h4) = to1 h in
          let fits : RegFits size r = record { in_struct = h0; in_area = h1; dflt = h3 } in
          (fits, (all_fit_apart size r regs hs fits (to h4)).0 h2, to h4)),
      (λ h. from1 (
        (h.0).in_struct,
        (h.0).in_area,
        (all_fit_apart size r regs hs h.0 h.2).1 h.1,
        (h.0).dflt,
        from h.2,
      )),
    )
