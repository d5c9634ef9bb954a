-- ===== src/Table/Lookup.antt =====
-- The lookup of areas by address.
use zephyr_io.Prelude.{
  ℕ, ◌+◌, ◌≡◌, ◌⊎◌, ◌≤◌, ◌<◌, inl, inr, refl, ap, sym, none, some, List, [], ◌∷◌, Bool, true, false,
  arith, ltb, leb, ◌&&◌, Bool-cases,
}
use zephyr_io.Table.Areas.{SettingArea, settings_find_area}
use zephyr_io.Table.Layout.{AreaApart, ApartFromAll, Disjoint}

abbrev pub Covers : SettingArea → ℕ → Type 0
Covers area addr = (area.base ≤ addr) × (addr < area.base + area.size)

abbrev pub IsIn : SettingArea → List SettingArea → Type 0
IsIn a [] = ⊥
IsIn a (b ∷ areas) = (a ≡ b) ⊎ IsIn a areas

abbrev pub NoneCovers : List SettingArea → ℕ → Type 0
NoneCovers [] addr = Unit
NoneCovers (a ∷ areas) addr = ¬ Covers a addr × NoneCovers areas addr

covers_test : SettingArea → ℕ → Bool
covers_test a addr = leb a.base addr && ltb addr (a.base + a.size)

covered : (a : SettingArea) (addr : ℕ) → covers_test a addr ≡ true → Covers a addr
unfolding covers_test
covered a addr h = (ground arith, ground arith)

covering : (a : SettingArea) (addr : ℕ) → Covers a addr → covers_test a addr ≡ true
unfolding covers_test
covering a addr c = ground (arith, c.0, c.1)

uncovered : (a : SettingArea) (addr : ℕ) → covers_test a addr ≡ false → ¬ Covers a addr
unfolding covers_test
uncovered a addr h c = ground (arith, c.0, c.1)

-- A lookup gives an area of the section that covers the address, or none covers it.
pub find_area_sound :
    (areas : List SettingArea) (addr : ℕ)
    → ((a : SettingArea) × (settings_find_area areas addr ≡ some a) × IsIn a areas × Covers a addr)
      ⊎ ((settings_find_area areas addr ≡ none) × NoneCovers areas addr)
unfolding settings_find_area covers_test
find_area_sound [] addr = inr (refl, tt)
find_area_sound (a ∷ areas) addr = elim (Bool-cases (covers_test a addr)) [
  | inl e ↦ inl (a, rw e refl, inl refl, covered a addr e)
  | inr e ↦ elim (find_area_sound areas addr) [
    | inl (b, h, i, c) ↦ inl (b, rw e h, inr i, c)
    | inr (h, n) ↦ inr (rw e h, (uncovered a addr e, n))
  ]
]

apart-Covers : (a b : SettingArea) (addr : ℕ) → AreaApart a b → Covers a addr → ¬ Covers b addr
apart-Covers a b addr (inl h) c d = omega (arith, c.0, c.1, d.0, d.1)
apart-Covers a b addr (inr h) c d = omega (arith, c.0, c.1, d.0, d.1)

not_in_rest :
    (a b : SettingArea) (areas : List SettingArea) (addr : ℕ)
    → ApartFromAll a areas
    → Covers a addr
    → IsIn b areas
    → ¬ Covers b addr
not_in_rest a b [] addr h c i d = i
not_in_rest a b (x ∷ areas) addr h c (inl e) d = apart-Covers a x addr h.0 c (rw (sym e) d)
not_in_rest a b (x ∷ areas) addr h c (inr i) d = not_in_rest a b areas addr h.1 c i d

-- If no two areas share an address, the lookup of any address of an area gives that area.
pub find_area_unique :
    (areas : List SettingArea) (b : SettingArea) (addr : ℕ)
    → Disjoint areas
    → IsIn b areas
    → Covers b addr
    → settings_find_area areas addr ≡ some b
unfolding settings_find_area covers_test
find_area_unique [] b addr h i c = absurd i
find_area_unique (a ∷ areas) b addr h (inl e) c =
    let e1 = covering a addr (rw (sym e) c) in rw e1 (ap some (sym e))
find_area_unique (a ∷ areas) b addr h (inr i) c = elim (Bool-cases (covers_test a addr)) [
  | inl e ↦ absurd (not_in_rest a b areas addr h.0 (covered a addr e) i c)
  | inr e ↦ rw e (find_area_unique areas b addr h.1 i c)
]
