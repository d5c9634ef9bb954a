-- ===== src/Core/Drain.antt =====
-- `weave_process_messages` of src/core.c as a consumer of a queue: total, first in first out.
use zephyr_io.Prelude.{
  ℕ, zero, suc, ◌+◌, ◌≡◌, ◌≢◌, ◌<◌, refl, sym, ap, ◌∙◌, inl, inr, false, is_none, Option, none,
  some, List, [], ◌∷◌, ◌++◌, ℤ, pos, arith, length, Option-cases, ==_iff,
}
use mathlib.Core.Bool.{false≢true}
use mathlib.Core.List.{append_assoc, append-nil}
use zephyr_io.World.{Ptr, Event, World, update}
use zephyr_io.Kernel.{no_wait, forever, Kernel, Program, Lawful}
use zephyr_io.Core.{release_ref, handler_of, process_event, process_from, weave_process_messages}
use zephyr_io.Core.Loop.{taken, found_empty, process_from-nil, process_from-cons}
use zephyr_io.Core.Log.{Call, Logged, call_of, calls}

-- The queue that `set_queue` writes holds what was written.
pub update_other {ℓ} : {A : Type ℓ} (f : Ptr → A) (i j : Ptr) (a : A) → j ≢ i → update f i a j ≡ f j
update_other f i j a ne = ground (arith, ne)

pub update_self {ℓ} : {A : Type ℓ} (f : Ptr → A) (q : Ptr) (a : A) → update f q a q ≡ a
update_self f q a = ground (arith, ==_iff q q)

module _ {K : Type 0} {k : Kernel K} {L : Lawful k} {p : Program K} {q : Ptr}
    {log : World K → List Call} (c : Logged L p q log) where
  abbrev pub waiting : World K → List Event
  waiting w = (L.view w.kernel).queued q

  pub release-log : (ops ptr : Option Ptr) (w : World K) → log (release_ref p ops ptr w) ≡ log w
  unfolding release_ref
  release-log none ptr w = refl
  release-log (some o) ptr w = elim (Option-cases (p.ops_at o).unref) [
    | inl e ↦ rw (e, release_ref)
    | inr (g, e) ↦ rw (e, release_ref) (c.log-unref g ptr w)
  ]

  release-waiting :
      (ops ptr : Option Ptr) (w : World K) → waiting (release_ref p ops ptr w) ≡ waiting w
  unfolding release_ref
  release-waiting none ptr w = refl
  release-waiting (some o) ptr w = elim (Option-cases (p.ops_at o).unref) [
    | inl e ↦ rw (e, release_ref)
    | inr (g, e) ↦ rw (e, release_ref) (c.unref_keeps g ptr w)
  ]

  -- One event: the call that it asks for is made and counted, and the queue is left alone.
  record Served (e : Event) (d : ℕ) (w : World K) (out : ℕ × World K) : Type 0 where
    logged : (es : List Call) → log out.1 ++ es ≡ log w ++ call_of (handler_of p e.sink) e.ptr es
    counted : (es : List Event) → out.0 + length (calls p es) ≡ d + length (calls p (e ∷ es))
    left : waiting out.1 ≡ waiting w

  process_event-Served : (e : Event) (d : ℕ) (w : World K) → Served e d w (process_event p e d w)
  unfolding process_event calls
  process_event-Served e d w = elim (Option-cases (handler_of p e.sink)) [
    | inl m ↦ record {
      logged = λ es. rw (m, process_event);
      counted = λ es. rw (m, process_event);
      left = rw (m, process_event);
    }
    | inr ((h, ud), m) ↦ record {
      logged = λ es.
          rw (m, process_event)
            (rw (release-log e.ops e.ptr (p.call h e.ptr ud w), c.log-call h e.ptr ud w)
              (append_assoc (log w) ((h, e.ptr) ∷ []) es));
      counted = λ es. rw (m, process_event) (omega arith);
      left =
          rw (m, process_event)
            (release-waiting e.ops e.ptr (p.call h e.ptr ud w) ∙ c.call_keeps h e.ptr ud w);
    }
  ]

  -- A drain that does not wait ends when the fuel exceeds the number of waiting messages. It has
  -- made the calls that they ask for, in their order, has counted them, and leaves the queue empty.
  pub record Drained (es : List Event) (d : ℕ) (w : World K) (r : Option (ℤ × World K))
      : Type 0 where
    pub final : World K
    pub returns : r ≡ some (pos (d + length (calls p es)), final)
    pub in_order : log final ≡ log w ++ calls p es
    pub empty : waiting final ≡ []

  process_from-Drained :
      (fuel : ℕ) (deadline d : ℕ) (w : World K) (es : List Event)
      → ((s : K) → k.timepoint_timeout deadline s ≡ no_wait)
      → waiting w ≡ es
      → length es < fuel
      → Drained es d w (process_from k p fuel q deadline d w)
  unfolding calls
  process_from-Drained zero deadline d w es now hq lt = absurd (omega arith)
  process_from-Drained (suc fuel) deadline d w [] now hq lt = record {
    final = found_empty L p q w;
    returns =
        process_from-nil L p fuel q deadline d w now hq
        ∙ ap (λ n. some (pos n, found_empty L p q w)) (omega arith);
    in_order = c.log-get q no_wait w ∙ sym (append-nil (log w));
    empty = ap (λ v. v.queued q) (L.get_empty q w.kernel hq).1 ∙ hq;
  }
  process_from-Drained (suc fuel) deadline d w (e ∷ es) now hq lt =
      let w1 = taken L p q deadline w in
      let s = process_event-Served e d w1 in
      let gone : waiting w1 ≡ es =
        ap (λ v. v.queued q) (L.get_head q _ w.kernel e es hq).1
        ∙ update_self ((L.view w.kernel).queued) q es in
      let r =
        process_from-Drained fuel deadline (process_event p e d w1).0 (process_event p e d w1).1 es
          now (s.left ∙ gone) (omega arith) in
      record {
        final = r.final;
        returns =
            process_from-cons L p fuel q deadline d w e es hq
            ∙ r.returns
            ∙ ap (λ n. some (pos n, r.final)) (omega (arith, s.counted es));
        in_order =
            r.in_order ∙ s.logged (calls p es) ∙ ap (λ l. l ++ calls p (e ∷ es)) (c.log-get q _ w);
        empty = r.empty;
      }

  -- Every handler and unref leaves the queue alone; the log has the handler calls, which nothing
  -- else adds to. `weave_process_messages` with K_NO_WAIT then returns once the fuel exceeds the
  -- number of waiting messages. Its result counts the messages whose sink has a handler; their
  -- handlers were called in the order of the queue, each once, and the queue is empty.
  pub weave_process_messages-Drained :
      (fuel : ℕ) (w : World K)
      → length (waiting w) < fuel
      → Drained (waiting w) 0 w (weave_process_messages k p fuel (some q) no_wait w)
  unfolding weave_process_messages
  weave_process_messages-Drained fuel w lt =
      process_from-Drained fuel _ 0 w (waiting w) (λ s. L.no_wait_stays w.kernel s) refl lt

module _ {K : Type 0} {k : Kernel K} (L : Lawful k) (p : Program K) (q : Ptr) where
  process_from-forever :
      (fuel deadline d : ℕ) (w : World K)
      → ((s : K) → k.timepoint_timeout deadline s ≡ forever)
      → ((s : K) → is_none (k.msgq_get q forever s).0 ≡ false)
      → process_from k p fuel q deadline d w ≡ none
  unfolding process_from
  process_from-forever zero deadline d w always fed = refl
  process_from-forever (suc fuel) deadline d w always fed =
      elim (Option-cases (k.msgq_get q (k.timepoint_timeout deadline w.kernel) w.kernel).0) [
        | inl nothing ↦ absurd (
            false≢true (
              sym (fed w.kernel)
              ∙ ap is_none
                  (ap (λ t. (k.msgq_get q t w.kernel).0) (sym (always w.kernel)) ∙ nothing)))
        | inr (e, got) ↦ rw (got, process_from) (process_from-forever fuel deadline _ _ always fed)
      ]

  -- With K_FOREVER, under which k_msgq_get returns only with a message, the call never returns:
  -- no fuel is enough, however often the queue runs empty in between.
  pub weave_process_messages-forever :
      (fuel : ℕ) (w : World K)
      → ((s : K) → is_none (k.msgq_get q forever s).0 ≡ false)
      → weave_process_messages k p fuel (some q) forever w ≡ none
  unfolding weave_process_messages
  weave_process_messages-forever fuel w fed =
      process_from-forever fuel _ 0 w (λ s. L.forever_stays w.kernel s) fed
