-- ===== src/Core/Loop.antt =====
-- One round of the loop of `weave_process_messages`, by what the queue holds.
use zephyr_io.Prelude.{ℕ, suc, ◌≡◌, ap, none, some, List, [], ◌∷◌, pos}
use zephyr_io.World.{Ptr, Event, World}
use zephyr_io.Kernel.{Timeout, no_wait, Kernel, Program, Lawful}
use zephyr_io.Core.{process_event, process_from}

module _ {K : Type 0} {k : Kernel K} (L : Lawful k) (p : Program K) where
  abbrev pub found_empty : Ptr → World K → World K
  found_empty q w = record w { kernel = (k.msgq_get q no_wait w.kernel).1 }

  -- The world when the event at the head of the queue has been taken out.
  abbrev pub taken : Ptr → ℕ → World K → World K
  taken q deadline w = record w {
    kernel = (k.msgq_get q (k.timepoint_timeout deadline w.kernel) w.kernel).1;
  }

  pub process_from-cons :
      (fuel : ℕ) (q : Ptr) (deadline d : ℕ) (w : World K) (e : Event) (es : List Event)
      → (L.view w.kernel).queued q ≡ e ∷ es
      → process_from k p (suc fuel) q deadline d w ≡ (
          let (n, w') = process_event p e d (taken q deadline w) in
          process_from k p fuel q deadline n w')
  unfolding process_from
  process_from-cons fuel q deadline d w e es hq =
      rw ((L.get_head q _ w.kernel e es hq).0, process_from)

  pub process_from-nil :
      (fuel : ℕ) (q : Ptr) (deadline d : ℕ) (w : World K)
      → ((s : K) → k.timepoint_timeout deadline s ≡ no_wait)
      → (L.view w.kernel).queued q ≡ []
      → process_from k p (suc fuel) q deadline d w ≡ some (pos d, found_empty q w)
  unfolding process_from
  process_from-nil fuel q deadline d w now hq =
      let nothing : (k.msgq_get q (k.timepoint_timeout deadline w.kernel) w.kernel).0 ≡ none =
        rw (now w.kernel) (L.get_empty q w.kernel hq).0 in
      rw (nothing, process_from) (ap (λ (t : Timeout). some (pos d, got_by t)) (now w.kernel))
    where
      got_by : Timeout → World K
      got_by t = record w { kernel = (k.msgq_get q t w.kernel).1 }
