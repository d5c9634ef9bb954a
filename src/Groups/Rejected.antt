-- ===== src/Groups/Rejected.antt =====
-- A write of a field that the observable's validator rejects, and one that it accepts.
use zephyr_io.Prelude.{◌≡◌, ◌∙◌, ap, Option, some, true, ℤ, neg, eacces, not, if◌then◌else◌}
use zephyr_io.World.{Ptr, World}
use zephyr_io.Kernel.{forever, Kernel, Program, Lawful}
use zephyr_io.Observable.{weave_observable_claim}
use zephyr_io.Observable.Guard.{claimed, claim-free}
use zephyr_io.Observable.Store.{IsReady}
use zephyr_io.Groups.Registry.{SettingField, SettingGroup}
use zephyr_io.Groups.Access.{with_field, set_claimed, settings_field_set}

module _ {K : Type 0} {k : Kernel K} (L : Lawful k) (p : Program K) (group_at : Ptr → SettingGroup)
    (temp obs value : Ptr) (field : SettingField) (buf : Ptr) where
  -- The world in which the validator of the observable runs.
  abbrev pub checking : World K → World K
  checking w = with_field k p group_at temp value obs field buf (claimed L p obs forever w)

  pub set_eq :
      (w : World K)
      → IsReady L p obs value w
      → field.writable ≡ true
      → settings_field_set k p group_at temp (some obs) (some field) (some buf) w
        ≡ set_claimed k p group_at temp (some value) obs field buf (claimed L p obs forever w)
  unfolding settings_field_set
  set_eq w r wr =
      ap (λ b. if not b then (neg eacces, w) else rest) wr
      ∙ ap (λ (c : Option Ptr × World K). set_claimed k p group_at temp c.0 obs field buf c.1)
          (claim-free L p obs forever w 0 r.free)
      ∙ ap (λ c. set_claimed k p group_at temp c obs field buf (claimed L p obs forever w)) r.buffer
    where
      rest : ℤ × World K
      rest =
          let (v, w1) = weave_observable_claim k (some obs) forever w in
          set_claimed k p group_at temp v obs field buf w1
