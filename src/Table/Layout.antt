-- ===== src/Table/Layout.antt =====
-- What the checks at start establish about areas and registers.
use zephyr_io.Prelude.{
  ℕ, ◌+◌, ◌≡◌, ◌↔◌, ◌⊎◌, ◌≤◌, ◌<◌, inl, inr, refl, ap, sym, ◌∙◌, List, [], ◌∷◌, Bool, true, false,
  ℤ, pos, neg, einval, arith, ltb, ◌&&◌, ◌||◌, if◌then◌else◌,
}
use zephyr_io.Table.Areas.{
  SettingArea, to_u16, ranges_overlap, overlaps_any, validate_area_addresses,
}

-- Half-open ranges without a common number.
abbrev pub Apart : ℕ → ℕ → ℕ → ℕ → Type 0
Apart a_start a_end b_start b_end = (b_end ≤ a_start) ⊎ (a_end ≤ b_start)

pub overlap-Apart :
    (a b c d : ℕ)
    → a < 65536
    → b < 65536
    → c < 65536
    → d < 65536
    → ranges_overlap a b c d ≡ false
    → Apart a b c d
unfolding ranges_overlap
overlap-Apart a b c d h1 h2 h3 h4 h = ground arith

pub Apart-overlap :
    (a b c d : ℕ)
    → a < 65536
    → b < 65536
    → c < 65536
    → d < 65536
    → Apart a b c d
    → ranges_overlap a b c d ≡ false
unfolding ranges_overlap
Apart-overlap a b c d h1 h2 h3 h4 (inl h) = ground arith
Apart-overlap a b c d h1 h2 h3 h4 (inr h) = ground arith

-- An area that ends in the address space of 16 bits.
abbrev pub Fits : SettingArea → Type 0
Fits area = area.base + area.size < 65536

abbrev pub AllFit : List SettingArea → Type 0
AllFit [] = Unit
AllFit (area ∷ areas) = Fits area × AllFit areas

abbrev pub AreaApart : SettingArea → SettingArea → Type 0
AreaApart a b = Apart a.base (a.base + a.size) b.base (b.base + b.size)

abbrev pub ApartFromAll : SettingArea → List SettingArea → Type 0
ApartFromAll a [] = Unit
ApartFromAll a (b ∷ bs) = AreaApart a b × ApartFromAll a bs

-- No two areas share an address.
abbrev pub Disjoint : List SettingArea → Type 0
Disjoint [] = Unit
Disjoint (area ∷ areas) = ApartFromAll area areas × Disjoint areas

-- The test of two areas in `overlaps_any`.
abbrev area_overlap : SettingArea → SettingArea → Bool
area_overlap a b =
    ranges_overlap a.base (to_u16 (a.base + a.size)) b.base (to_u16 (b.base + b.size))

u16 : (n : ℕ) → n < 65536 → to_u16 n ≡ n
u16 n h = omega arith

area_overlap-plain :
    (a b : SettingArea)
    → Fits a
    → Fits b
    → area_overlap a b ≡ ranges_overlap a.base (a.base + a.size) b.base (b.base + b.size)
area_overlap-plain a b ha hb =
    ap (λ x. ranges_overlap a.base x b.base (to_u16 (b.base + b.size))) (u16 (a.base + a.size) ha)
    ∙ ap (λ x. ranges_overlap a.base (a.base + a.size) b.base x) (u16 (b.base + b.size) hb)

area_overlap-Apart :
    (a b : SettingArea) → Fits a → Fits b → area_overlap a b ≡ false → AreaApart a b
area_overlap-Apart a b ha hb h =
    overlap-Apart a.base (a.base + a.size) b.base (b.base + b.size) (omega arith) ha (omega arith)
      hb (sym (area_overlap-plain a b ha hb) ∙ h)

apart-area_overlap :
    (a b : SettingArea) → Fits a → Fits b → AreaApart a b → area_overlap a b ≡ false
apart-area_overlap a b ha hb h =
    area_overlap-plain a b ha hb
    ∙ Apart-overlap a.base (a.base + a.size) b.base (b.base + b.size) (omega arith) ha (omega arith)
        hb h

or-false : {b c : Bool} → (b || c) ≡ false → (b ≡ false) × (c ≡ false)
or-false h = (ground arith, ground arith)

overlaps_any-Apart :
    (a : SettingArea) (areas : List SettingArea)
    → Fits a
    → AllFit areas
    → (overlaps_any a areas ≡ false) ↔ ApartFromAll a areas
unfolding overlaps_any
overlaps_any-Apart a [] ha hs = ((λ h. tt), (λ h. refl))
overlaps_any-Apart a (b ∷ areas) ha hs =
    let (to, from) = overlaps_any-Apart a areas ha hs.1 in
    (
      (λ h. let (h1, h2) = or-false h in (area_overlap-Apart a b ha hs.0 h1, to h2)),
      (λ h. rw (apart-area_overlap a b ha hs.0 h.0, from h.1) refl),
    )

first_error :
    (b : Bool) (z : ℤ) → ((if b then neg einval else z) ≡ pos 0) ↔ ((b ≡ false) × (z ≡ pos 0))
first_error true z = ((λ h. ground arith), (λ h. ground arith))
first_error false z = ((λ h. (refl, h)), (λ h. h.1))

-- If all areas end in the address space, the check of the areas returns 0 exactly if no two of
-- them share an address.
pub validate_area_addresses-Disjoint :
    (areas : List SettingArea)
    → AllFit areas
    → (validate_area_addresses areas ≡ pos 0) ↔ Disjoint areas
unfolding validate_area_addresses
validate_area_addresses-Disjoint [] hs = ((λ h. tt), (λ h. refl))
validate_area_addresses-Disjoint (a ∷ areas) hs =
    let (to, from) = validate_area_addresses-Disjoint areas hs.1 in
    let (to1, from1) = overlaps_any-Apart a areas hs.0 hs.1 in
    let (to2, from2) = first_error (overlaps_any a areas) (validate_area_addresses areas) in
    ((λ h. let (h1, h2) = to2 h in (to1 h1, to h2)), (λ h. from2 (from1 h.0, from h.1)))

never_below : (b : Bool) (n : ℕ) → (if b && ltb n 0 || false then neg einval else pos 0) ≡ pos 0
never_below b n = ground arith

-- An area that ends exactly at 65536 is compared by an end of 0, and no later area is found to
-- overlap it: the check of the two returns 0 wherever the other lies.
pub end-unchecked :
    (a b : SettingArea) → a.base + a.size ≡ 65536 → validate_area_addresses (a ∷ b ∷ []) ≡ pos 0
unfolding validate_area_addresses overlaps_any ranges_overlap
end-unchecked a b h =
    rw h (never_below (ltb (to_u16 a.base) (to_u16 (to_u16 (b.base + b.size)))) (to_u16 b.base))
