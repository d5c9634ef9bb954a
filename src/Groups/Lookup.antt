-- ===== src/Groups/Lookup.antt =====
-- What the lookups by register number find.
use zephyr_io.Prelude.{
  ℕ, ◌+◌, ◌%◌, ◌^◌, ◌≡◌, ◌≢◌, ◌⊎◌, ◌∙◌, inl, inr, refl, sym, Option, none, some, List, [], ◌∷◌,
  arith, ◌==◌, Bool-cases, Option-cases,
}
use mathlib.Core.Path.{subst}
use zephyr_io.World.{Ptr, World}
use zephyr_io.Kernel.{Program}
use zephyr_io.Groups.Registry.{
  SettingField, SettingGroup, field_at, or_else, settings_get_group, field_in, settings_find_reg,
}

abbrev pub IsIn : {A : Type 0} → A → List A → Type 0
IsIn a [] = ⊥
IsIn a (b ∷ bs) = (a ≡ b) ⊎ IsIn a bs

-- The register of a field, of 16 bits.
abbrev pub number : ℕ → SettingField → ℕ
number base_reg f = (base_reg + f.reg) % 2 ^ 16

abbrev pub NoField : ℕ → ℕ → List SettingField → Type 0
NoField reg base_reg [] = Unit
NoField reg base_reg (f ∷ fields) = (reg ≢ number base_reg f) × NoField reg base_reg fields

-- The first field at the register, or none has it.
field_at_sound :
    (reg base_reg : ℕ) (fields : List SettingField)
    → ((f : SettingField) × (field_at reg base_reg fields ≡ some f)
        × IsIn f fields
        × (reg ≡ number base_reg f))
      ⊎ ((field_at reg base_reg fields ≡ none) × NoField reg base_reg fields)
unfolding field_at
field_at_sound reg base_reg [] = inr (refl, tt)
field_at_sound reg base_reg (g ∷ fields) = elim (Bool-cases (reg == number base_reg g)) [
  | inl e ↦ inl (g, rw e refl, inl refl, ground arith)
  | inr e ↦ elim (field_at_sound reg base_reg fields) [
    | inl (f, h, i, n) ↦ inl (f, rw e h, inr i, n)
    | inr (h, n) ↦ inr (rw e h, ((λ x. ground arith), n))
  ]
]

none-some : {a : SettingGroup} → ¬ (Path (Option SettingGroup) none (some a))
none-some h = ground arith

some_inj : {a b : SettingGroup} → Path (Option SettingGroup) (some a) (some b) → a ≡ b
some_inj h = ground arith

module _ {K : Type 0} (p : Program K) (group_at : Ptr → SettingGroup) (w : World K) where
  -- An observable whose group has a field at the register.
  pub record HasField (reg : ℕ) (obs : Ptr) (f : SettingField) : Type 0 where
    pub grp : SettingGroup
    pub group : settings_get_group p group_at w obs ≡ some grp
    pub member : IsIn f grp.fields
    pub at : reg ≡ number grp.base_reg f

  abbrev pub NoGroup : ℕ → List Ptr → Type 0
  NoGroup reg [] = Unit
  NoGroup reg (obs ∷ registry) =
      ((grp : SettingGroup)
        → settings_get_group p group_at w obs ≡ some grp
        → NoField reg grp.base_reg grp.fields)
      × NoGroup reg registry

  here_or_not :
      (reg : ℕ) (obs : Ptr)
      → ((f : SettingField) × (field_in p group_at w reg (settings_get_group p group_at w obs)
            ≡ some f)
          × HasField reg obs f)
        ⊎ ((field_in p group_at w reg (settings_get_group p group_at w obs) ≡ none)
            × ((grp : SettingGroup)
                → settings_get_group p group_at w obs ≡ some grp
                → NoField reg grp.base_reg grp.fields))
  unfolding field_in
  here_or_not reg obs = elim (Option-cases (settings_get_group p group_at w obs)) [
    | inl e ↦ inr (rw (e, field_in) refl, (λ grp h. absurd (none-some (sym e ∙ h))))
    | inr (grp, e) ↦ elim (field_at_sound reg grp.base_reg grp.fields) [
      | inl (f, h, i, n) ↦
          inl (f, rw (e, field_in) h, record { grp = grp; group = e; member = i; at = n })
      | inr (h, n) ↦ inr (
        rw (e, field_in) h,
        (λ g h2.
            subst (λ (g : SettingGroup). NoField reg g.base_reg g.fields) (some_inj (sym e ∙ h2))
              n),
      )
    ]
  ]

  -- A lookup by register gives an observable of the registry and a field of its group that has the
  -- register, or no group of the registry has a field there.
  pub find_reg_sound :
      (reg : ℕ) (registry : List Ptr)
      → ((obs : Ptr) × (f : SettingField) × (settings_find_reg p group_at w reg registry
            ≡ some (obs, f))
          × IsIn obs registry
          × HasField reg obs f)
        ⊎ ((settings_find_reg p group_at w reg registry ≡ none) × NoGroup reg registry)
  unfolding settings_find_reg or_else
  find_reg_sound reg [] = inr (refl, tt)
  find_reg_sound reg (obs ∷ registry) = elim (here_or_not reg obs) [
    | inl (f, h, x) ↦ inl (obs, f, rw (h, or_else) refl, inl refl, x)
    | inr (h, x) ↦ elim (find_reg_sound reg registry) [
      | inl (o, f, h2, i, y) ↦ inl (o, f, rw (h, or_else) h2, inr i, y)
      | inr (h2, y) ↦ inr (rw (h, or_else) h2, (x, y))
    ]
  ]
