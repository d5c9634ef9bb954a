-- ===== src/Core/Wiring.antt =====
-- `weave_init` of src/core.c: the connections of the image, wired to their sources.
use zephyr_io.Prelude.{
  ◌≡◌, refl, sym, ap, ◌∙◌, inl, inr, Option, some, List, [], ◌∷◌, ◌++◌, ◌&&◌, not, pos, arith,
  is_none, same, ◌==◌, ==_iff, if◌then◌else◌, Bool-cases, Option-cases,
}
use mathlib.Core.List.{append_assoc, append-nil}
use zephyr_io.World.{Ptr, Connection, World}
use zephyr_io.Kernel.{Kernel, Program, Lawful}
use zephyr_io.Core.{wire, wire_all, weave_init}

-- The connections from `s` that have a sink, in the order of the section.
unfoldable pub wired_to : Ptr → List Connection → List Connection
wired_to s [] = []
wired_to s (c ∷ cs) =
    if same c.source (some s) && not (is_none c.sink) then c ∷ wired_to s cs else wired_to s cs

module _ {K : Type 0} {k : Kernel K} (L : Lawful k) (p : Program K) where
  wire-sinks :
      (c : Connection) (w : World K) (s : Ptr) (rest : List Connection)
      → ((wire k p c w).sources s).sinks ++ rest
        ≡ (w.sources s).sinks
          ++ (if same c.source (some s) && not (is_none c.sink) then c ∷ rest else rest)
  unfolding wire
  wire-sinks c w s rest = elim (Option-cases c.source) [
    | inl m ↦ rw (m, wire)
    | inr (r, m) ↦ elim (Option-cases c.sink) [
      | inl n ↦ rw (m, n, wire) (ground arith)
      | inr (t, n) ↦
          rw (m, n, wire)
            (elim (Bool-cases (r == s)) [
              | inl hit ↦
                  rw (hit, L.append_last, (==_iff r s).0 hit)
                    (append_assoc (w.sources s).sinks (c ∷ []) rest
                      ∙ ap (λ z. (w.sources s).sinks ++ z ∷ rest)
                          (with_ends (m ∙ ap some ((==_iff r s).0 hit)) n))
              | inr miss ↦ rw miss refl
            ])
    ]
  ]
    where
      with_ends :
          {a b : Option Ptr} → c.source ≡ a → c.sink ≡ b → c ≡ record { source = a; sink = b }
      with_ends m n = λ i. record { source = m i; sink = n i }

  wire_all-sinks :
      (cs : List Connection) (w : World K) (s : Ptr)
      → ((wire_all k p cs w).sources s).sinks ≡ (w.sources s).sinks ++ wired_to s cs
  unfolding wire_all wired_to
  wire_all-sinks [] w s = sym (append-nil (w.sources s).sinks)
  wire_all-sinks (c ∷ cs) w s =
      wire_all-sinks cs (wire k p c w) s ∙ wire-sinks c w s (wired_to s cs)

  wire-ops :
      (c : Connection) (w : World K) (s : Ptr) → ((wire k p c w).sources s).ops ≡ (w.sources s).ops
  unfolding wire
  wire-ops c w s = ground arith

  wire_all-ops :
      (cs : List Connection) (w : World K) (s : Ptr)
      → ((wire_all k p cs w).sources s).ops ≡ (w.sources s).ops
  unfolding wire_all
  wire_all-ops [] w s = refl
  wire_all-ops (c ∷ cs) w s = wire_all-ops cs (wire k p c w) s ∙ wire-ops c w s

  -- After boot each source has, behind what it had, exactly the connections of the image that name
  -- it and a sink, in the order of the section; its ops are what they were, and the hook returns 0.
  pub weave_init-wired :
      (w : World K) (s : Ptr)
      → (((weave_init k p w).1.sources s).sinks ≡ (w.sources s).sinks ++ wired_to s p.connections)
        × (((weave_init k p w).1.sources s).ops ≡ (w.sources s).ops)
        × ((weave_init k p w).0 ≡ pos 0)
  unfolding weave_init
  weave_init-wired w s = (wire_all-sinks p.connections w s, wire_all-ops p.connections w s, refl)
