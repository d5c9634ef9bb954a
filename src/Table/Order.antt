-- ===== src/Table/Order.antt =====
-- What the range check of a register accepts, by the type of the register.
use zephyr_io.Prelude.{ℕ, ◌≡◌, ◌↔◌, ◌≤◌, ap, sym, Bool, true, false, arith, ltb, if◌then◌else◌}
use mathlib.Core.Path.{subst}
use zephyr_io.Table.Value.{
  RegisterType, SettingValue, SettingReg, unsigned, value_less_than, value_greater_than,
  settings_reg_validate_range, register_type_size, st_u8, st_u16, st_u32, st_u64, st_i8, st_i16,
  st_i32, st_i64, st_f32, st_f64, st_bool, st_type_count,
}

in_bounds :
    (v low high : ℕ)
    → ((if ltb v low then false else if ltb high v then false else true) ≡ true)
      ↔ ((low ≤ v) × (v ≤ high))
in_bounds v low high = ((λ h. (ground arith, ground arith)), (λ h. ground (arith, h.0, h.1)))

-- The types of unsigned numbers.
pub data IsUnsigned : RegisterType → Type 0 where
  u8 : IsUnsigned st_u8
  u16 : IsUnsigned st_u16
  u32 : IsUnsigned st_u32
  u64 : IsUnsigned st_u64

-- The two comparisons of `settings_reg_validate_range`.
in_range : RegisterType → SettingValue → SettingValue → SettingValue → Bool
in_range type v low high =
    if value_less_than type v low
    then false
    else if value_greater_than type v high
    then false
    else true

in_range-bounds :
    (type : RegisterType) (v low high : SettingValue)
    → IsUnsigned type
    → let n = register_type_size type in
      (in_range type v low high ≡ true)
      ↔ ((unsigned n low ≤ unsigned n v) × (unsigned n v ≤ unsigned n high))
unfolding in_range value_less_than value_greater_than register_type_size
in_range-bounds st_u8 v low high u8 = in_bounds (unsigned 1 v) (unsigned 1 low) (unsigned 1 high)
in_range-bounds st_u16 v low high u16 = in_bounds (unsigned 2 v) (unsigned 2 low) (unsigned 2 high)
in_range-bounds st_u32 v low high u32 = in_bounds (unsigned 4 v) (unsigned 4 low) (unsigned 4 high)
in_range-bounds st_u64 v low high u64 = in_bounds (unsigned 8 v) (unsigned 8 low) (unsigned 8 high)
in_range-bounds st_i8 v low high u = elim u [ ]
in_range-bounds st_i16 v low high u = elim u [ ]
in_range-bounds st_i32 v low high u = elim u [ ]
in_range-bounds st_i64 v low high u = elim u [ ]
in_range-bounds st_f32 v low high u = elim u [ ]
in_range-bounds st_f64 v low high u = elim u [ ]
in_range-bounds st_bool v low high u = elim u [ ]
in_range-bounds st_type_count v low high u = elim u [ ]

-- A register of an unsigned type that has a range accepts exactly the values whose number, in the
-- bytes of the type, lies from that of the minimum to that of the maximum.
pub validate_range-IsUnsigned :
    (r : SettingReg) (v : SettingValue)
    → IsUnsigned r.type
    → r.no_range ≡ false
    → let n = register_type_size r.type in
      (settings_reg_validate_range r v ≡ true)
      ↔ ((unsigned n r.min ≤ unsigned n v) × (unsigned n v ≤ unsigned n r.max))
unfolding settings_reg_validate_range in_range
validate_range-IsUnsigned r v u h =
    let n = register_type_size r.type in
    subst
      (λ b. (b ≡ true) ↔ ((unsigned n r.min ≤ unsigned n v) × (unsigned n v ≤ unsigned n r.max)))
      (sym (ap (λ b. if b then true else in_range r.type v r.min r.max) h))
      (in_range-bounds r.type v r.min r.max u)
