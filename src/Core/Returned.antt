-- ===== src/Core/Returned.antt =====
-- A drain of src/core.c gives every reference back that waits in its queue.
use zephyr_io.Prelude.{ℕ, refl, ◌+◌, ◌≡◌, ◌<◌, ◌∙◌, ap, some, List, [], ◌∷◌, pos, arith, length}
use zephyr_io.World.{Ptr, World}
use zephyr_io.Kernel.{no_wait, Kernel, Program, Lawful, View}
use zephyr_io.Core.{weave_process_messages}
use zephyr_io.Core.Log.{Call, Logged, calls}
use zephyr_io.Core.Pending.{pending, owed_all}
use zephyr_io.Core.Balance.{Counted, Inv, weave_process_messages-Inv}
use zephyr_io.Core.Drain.{waiting, weave_process_messages-Drained}

module _ {K : Type 0} {k : Kernel K} {L : Lawful k} {p : Program K} {q x o f g : Ptr}
    {refs : World K → ℕ} {log : World K → List Call} (c : Counted L p (q ∷ []) x o f g refs)
    (l : Logged L p q log) where
  none_pending : (v : View) → v.queued q ≡ [] → pending p x o (q ∷ []) v ≡ 0
  unfolding pending owed_all
  none_pending v e = rw e refl

  -- A payload whose ops move its reference count by one, and whose handlers and the kernel keep it
  -- balanced; only queue q carries its deliveries, and the handlers and unref leave that queue
  -- alone. A drain that does not wait returns once the fuel exceeds the number of waiting messages:
  -- it counts those whose sink has a handler, the queue is empty, and the reference count is what
  -- others hold, so each reference that waited in the queue has been given back.
  pub weave_process_messages-refs :
      (fuel : ℕ) (w : World K) (n : ℕ)
      → length (waiting l w) < fuel
      → Inv L p (q ∷ []) x o f g refs n w
      → (w' : World K) × (weave_process_messages k p fuel (some q) no_wait w
          ≡ some (pos (length (calls p (waiting l w))), w'))
        × (waiting l w' ≡ [])
        × (refs w' ≡ n)
  weave_process_messages-refs fuel w n lt inv =
      let d = weave_process_messages-Drained l fuel w lt in
      let kept =
        weave_process_messages-Inv c fuel q n w (pos (0 + length (calls p (waiting l w)))) d.final
          (ground arith) inv d.returns in
      (
        d.final,
        d.returns ∙ ap (λ i. some (pos i, d.final)) (omega arith),
        d.empty,
        omega (arith, kept, none_pending (L.view d.final.kernel) d.empty),
      )
