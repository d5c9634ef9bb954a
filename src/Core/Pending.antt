-- ===== src/Core/Pending.antt =====
-- The deliveries of one payload that wait in queues: events that carry it with its ops.
use zephyr_io.Prelude.{
  ℕ, suc, ◌+◌, ◌≡◌, refl, Option, none, some, List, [], ◌∷◌, ◌++◌, Bool, false, ◌&&◌, not, arith,
  ◌==◌, if◌then◌else◌, same, is_none,
}
use zephyr_io.World.{Ptr, Event}
use zephyr_io.Kernel.{View, set_queue, Program}

abbrev pub occurrences : Ptr → List Ptr → ℕ
occurrences q [] = 0
occurrences q (r ∷ rs) = if q == r then suc (occurrences q rs) else occurrences q rs

module _ {K : Type 0} (p : Program K) (x o : Ptr) where
  abbrev pub handled : Option Ptr → Bool
  handled none = false
  handled (some sink) = not (is_none (p.sink_at sink).handler)

  -- The event is a delivery of `x` under the ops `o`, with a handler to end it.
  abbrev pub owes : Event → Bool
  owes e = same e.ptr (some x) && (same e.ops (some o) && handled e.sink)

  abbrev pub owed : Event → ℕ
  owed e = if owes e then 1 else 0

  unfoldable pub owed_all : List Event → ℕ
  owed_all [] = 0
  owed_all (e ∷ es) = owed e + owed_all es

  unfoldable pub pending : List Ptr → View → ℕ
  pending [] v = 0
  pending (q ∷ qs) v = owed_all (v.queued q) + pending qs v

  pub owed_all-cons : (e : Event) (es : List Event) → owed_all (e ∷ es) ≡ owed e + owed_all es
  unfolding owed_all
  owed_all-cons e es = refl

  pub owed_all-snoc : (es : List Event) (e : Event) → owed_all (es ++ e ∷ []) ≡ owed_all es + owed e
  unfolding owed_all
  owed_all-snoc [] e = omega arith
  owed_all-snoc (f ∷ es) e = omega (arith, owed_all-snoc es e)

  pending-absent :
      (qs : List Ptr) (v : View) (q : Ptr) (es : List Event)
      → occurrences q qs ≡ 0
      → pending qs (set_queue v q es) ≡ pending qs v
  unfolding pending
  pending-absent [] v q es h = refl
  pending-absent (r ∷ qs) v q es h = ground (arith, pending-absent qs v q es)

  -- A queue that is counted once gives up its old events and adds the new ones.
  pub pending-set_queue :
      (qs : List Ptr) (v : View) (q : Ptr) (es : List Event)
      → occurrences q qs ≡ 1
      → pending qs (set_queue v q es) + owed_all (v.queued q) ≡ pending qs v + owed_all es
  unfolding pending
  pending-set_queue [] v q es h = absurd (omega arith)
  pending-set_queue (r ∷ qs) v q es h =
      ground (arith, pending-absent qs v q es, pending-set_queue qs v q es)
