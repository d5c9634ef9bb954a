-- ===== src/Tests/CoreCases.antt =====
-- The theorems on src/core.c at the small machine.
use zephyr_io.Prelude.{
  length, ℕ, ◌+◌, ◌≡◌, refl, ap, Option, none, some, List, [], ◌∷◌, false, ◌&&◌, pos, neg, arith,
  same, is_none,
}
use zephyr_io.World.{Ptr, Event, World}
use zephyr_io.Kernel.{no_wait, forever}
use zephyr_io.Core.{
  release_ref, take_ref, queue_event, hand_over, deliver_checked, sink_deliver, emit_from,
  weave_source_emit, weave_process_messages, weave_init,
}
use zephyr_io.Core.Pending.{owed_all, pending}
use zephyr_io.Core.Balance.{Counted, Inv, sink_deliver-Inv, weave_source_emit-Inv}
use zephyr_io.Core.Log.{calls, Logged, immediate_calls}
use zephyr_io.Core.Returned.{weave_process_messages-refs}
use zephyr_io.Core.Drain.{
  Drained, waiting, weave_process_messages-Drained, weave_process_messages-forever,
}
use zephyr_io.Core.Emit.{weave_source_emit-log}
use zephyr_io.Core.Wiring.{wired_to, weave_init-wired}
use zephyr_io.Tests.Machine.{
  Machine, machine, machine_laws, get_from, get_from-rest, app, start, link,
}

abbrev pub refs7 : World Machine → ℕ
refs7 w = w.kernel.refs 7

app-others :
    (ops ptr : Option Ptr) (w : World Machine) (n : ℕ)
    → same ptr (some 7) && same ops (some 30) ≡ false
    → refs7 w ≡ n + pending app 7 30 (20 ∷ []) w.kernel.view
    → refs7 (release_ref app ops ptr w)
      ≡ n + pending app 7 30 (20 ∷ []) (release_ref app ops ptr w).kernel.view
unfolding release_ref
app-others none ptr w n h inv = inv
app-others (some o) none w n h inv = ground arith
app-others (some o) (some x) w n h inv = ground arith

pub app-Counted : Counted machine_laws app (20 ∷ []) 7 30 31 32 refs7
app-Counted = record {
  is_ref = refl;
  is_unref = refl;
  one_queue = λ s q h. ground arith;
  put_neutral = λ q e t w. ground arith;
  get_neutral =
      λ q t w. ap (λ (r : Ptr → ℕ). r 7) (get_from-rest (w.kernel.view.queued q) q t w.kernel).0;
  takes = λ s w n e inv. ground arith;
  refuses = λ s w n e inv. ground arith;
  gives_back = λ w n inv. ground arith;
  others_neutral = app-others;
  handlers_balanced = λ h ptr ud w n inv. inv;
}

-- One reference is held, and nothing waits.
pub start-Inv : Inv machine_laws app (20 ∷ []) 7 30 31 32 refs7 1 start
unfolding pending owed_all
start-Inv = refl

-- To the queued sink 2, to the immediate sink 1, and refused by sink 4.
sink_deliver-Inv_example :
    Inv machine_laws app
      (20 ∷ [])
      7
      30
      31
      32
      refs7
      1
      (sink_deliver machine app (some 2) (some 7) (some 30) no_wait start).1
sink_deliver-Inv_example = sink_deliver-Inv app-Counted (some 2) no_wait start 1 start-Inv

abbrev emitted : World Machine
emitted = (weave_source_emit machine app (some 102) (some 7) no_wait start).1

emit_result : (weave_source_emit machine app (some 102) (some 7) no_wait start).0 ≡ pos 2
unfolding weave_source_emit emit_from sink_deliver deliver_checked take_ref hand_over queue_event
    release_ref
emit_result = refl

emitted-Inv : Inv machine_laws app (20 ∷ []) 7 30 31 32 refs7 1 emitted
emitted-Inv = weave_source_emit-Inv app-Counted 102 no_wait start 1 refl start-Inv

pub app-Logged : Logged machine_laws app 20 (λ w. w.kernel.log)
app-Logged = record {
  log-call = λ h ptr ud w. refl;
  log-ref = λ f x s w. ground arith;
  log-unref = λ g ptr w. ground arith;
  log-put = λ r e t w. ground arith;
  log-get = λ r t w. (get_from-rest (w.kernel.view.queued r) r t w.kernel).1;
  call_keeps = λ h ptr ud w. refl;
  unref_keeps = λ g ptr w. ground arith;
}

weave_process_messages-Drained_example :
    Drained app-Logged
      (waiting app-Logged emitted)
      0
      emitted
      (weave_process_messages machine app 3 (some 20) no_wait emitted)
unfolding weave_source_emit emit_from sink_deliver deliver_checked take_ref hand_over queue_event
    release_ref
weave_process_messages-Drained_example =
    weave_process_messages-Drained app-Logged 3 emitted (omega arith)

-- The reference of the delivery to sink 2 comes back: one is left.
weave_process_messages-refs_example :
    (w' : World Machine) × (weave_process_messages machine app 3 (some 20) no_wait emitted
      ≡ some (pos (length (calls app (waiting app-Logged emitted))), w'))
    × (waiting app-Logged w' ≡ [])
    × (refs7 w' ≡ 1)
unfolding weave_source_emit emit_from sink_deliver deliver_checked take_ref hand_over queue_event
    release_ref
weave_process_messages-refs_example =
    weave_process_messages-refs app-Counted app-Logged 3 emitted 1 (omega arith) emitted-Inv

fed : (l : List Event) (q : Ptr) (s : Machine) → is_none (get_from l q forever s).0 ≡ false
fed [] q s = refl
fed (e ∷ l) q s = refl

weave_process_messages-forever_example :
    weave_process_messages machine app 9 (some 20) forever start ≡ none
weave_process_messages-forever_example =
    weave_process_messages-forever machine_laws app 20 9 start (λ s. fed (s.view.queued 20) 20 s)

abbrev bare : World Machine
bare = record start {
  sources = λ s. record { sinks = link s 3 ∷ link s 1 ∷ link s 2 ∷ []; ops = none };
}

emit_one_result : (weave_source_emit machine app (some 9) (some 7) no_wait bare).0 ≡ neg 22
unfolding weave_source_emit emit_from sink_deliver deliver_checked take_ref hand_over queue_event
    release_ref
emit_one_result = refl

weave_source_emit-log_example :
    (weave_source_emit machine app (some 51) (some 50) no_wait start).1.kernel.log
    ≡ (10, some 50) ∷ []
unfolding immediate_calls
weave_source_emit-log_example = weave_source_emit-log app-Logged 51 40 50 no_wait start refl refl

weave_init-wired_example :
    (((weave_init machine app start).1.sources 100).sinks ≡ link 100 1 ∷ link 100 2 ∷ [])
    × (((weave_init machine app start).1.sources 100).ops ≡ none)
    × ((weave_init machine app start).0 ≡ pos 0)
unfolding wired_to
weave_init-wired_example = weave_init-wired machine_laws app start 100
