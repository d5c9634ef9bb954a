-- ===== src/Tests/ObservableCases.antt =====
-- The theorems on src/observable.c at the small machine.
use zephyr_io.Prelude.{
  inl, inr, ◌==◌, Bool-cases, if◌then◌else◌, ℤ, pos, ◌≡◌, refl, Option, none, some, [], ◌∷◌, true,
  pos, neg, ebusy, arith, take,
}
use zephyr_io.World.{Ptr, World}
use zephyr_io.Kernel.{no_wait, forever, Program}
use zephyr_io.Core.Log.{immediate_calls}
use zephyr_io.Observable.{
  set_publishing, weave_observable_claim, weave_observable_finish, notify, weave_observable_publish,
  weave_observable_validate, weave_observable_set_unchecked, weave_observable_get_unchecked,
  fetch_from,
}
use zephyr_io.Observable.Guard.{lock, claim-excludes, publish-busy-locked}
use zephyr_io.Observable.Store.{IsReady, Quiet}
use zephyr_io.Observable.Notified.{IsNotifying, Spares, Quiet-refl, get-Quiet}
use zephyr_io.Groups.Observables.{on_motor_changed}
use zephyr_io.Table.SampleAreas.{motor_on_change}
use zephyr_io.Observable.RoundTrip.{get-set}
use zephyr_io.Observable.Notify.{notify-log}
use zephyr_io.Tests.Machine.{Machine, machine, machine_laws, app, start}
use zephyr_io.Tests.CoreCases.{app-Logged}

-- Observable 50 is publishing.
abbrev busy : World Machine
busy = set_publishing 50 true start

claim-excludes_example :
    let (ptr, w1) = weave_observable_claim machine (some 50) forever start in
    (ptr ≡ some 52)
    × ((weave_observable_claim machine (some 50) no_wait w1).0 ≡ none)
    × (lock machine_laws app 50 (weave_observable_finish machine (some 50) w1) ≡ 1)
claim-excludes_example = claim-excludes machine_laws app 50 forever start refl (omega arith)

publish-busy-locked_example :
    let (ptr, w1) = weave_observable_claim machine (some 50) forever busy in
    let (r, w2) = weave_observable_publish machine app (some 50) w1 in
    (r ≡ neg ebusy)
    × (lock machine_laws app 50 w2 ≡ 0)
    × ((weave_observable_claim machine (some 50) no_wait w2).0 ≡ none)
publish-busy-locked_example = publish-busy-locked machine_laws app 50 forever busy refl refl

start-IsReady : IsReady machine_laws app 50 52 start
start-IsReady = record { buffer = refl; idle = refl; free = refl }

-- An application whose validator rejects everything with -ERANGE.
abbrev strict : Program Machine
strict = record app { call_validator = λ v obs value ud w. (neg 34, w) }

abbrev guarded : World Machine
guarded = record start { observables = λ a. record (start.observables a) { validator = some 80 } }

-- The callback of validators.
abbrev pub Validator : Type 0
Validator = Ptr → Ptr → Option Ptr → Option Ptr → World Machine → ℤ × World Machine

-- The handlers of the motor settings of the two samples: they read the observable at 50 to print it.
abbrev reads : Ptr → Option Ptr → Option Ptr → World Machine → World Machine
reads h none ud w = w
reads h (some o) ud w =
    let seen =
      if h == 11
      then on_motor_changed machine app 59 (some 50) ud w
      else motor_on_change machine app 59 (some 50) ud w in
    if o == 50 then seen else w

-- The owner's sink and sink 1 have such a handler, sink 2 has one behind queue 20. Validators are what
-- the callback says.
abbrev pub reading_with : Validator → Program Machine
reading_with f = record app {
  sink_at = λ s. record {
    handler = some (if s == 2 then 11 else 10);
    user_data = some 97;
    queue = if s == 2 then some 20 else none;
  };
  call = reads;
  call_validator = f;
}

abbrev accept_all : Validator
accept_all v obs value ud w = (pos 0, w)

abbrev pub reading : Program Machine
reading = reading_with accept_all

module _ (f : Validator) where
  reads-Quiet :
      (h : Ptr) (ptr ud : Option Ptr) (v : World Machine)
      → IsNotifying machine_laws (reading_with f) 50 52 v
      → Quiet machine_laws (reading_with f) 50 52 v (reads h ptr ud v)
  unfolding on_motor_changed motor_on_change weave_observable_get_unchecked fetch_from
  reads-Quiet h none ud v n = Quiet-refl machine_laws (reading_with f) 50 52 v
  reads-Quiet h (some o) ud v n = elim (Bool-cases (o == 50)) [
    | inl e ↦ elim (Bool-cases (h == 11)) [
      | inl e2 ↦
          rw (e, e2) (get-Quiet machine_laws (reading_with f) 50 52 59 v (λ x. ground arith) n)
      | inr e2 ↦
          rw (e, e2) (get-Quiet machine_laws (reading_with f) 50 52 59 v (λ x. ground arith) n)
    ]
    | inr e ↦ rw e (Quiet-refl machine_laws (reading_with f) 50 52 v)
  ]

  ref-Quiet :
      (g x s : Ptr) (v : World Machine)
      → Quiet machine_laws (reading_with f) 50 52 v ((reading_with f).call_ref g x s v).1
  ref-Quiet g x s v = elim (Bool-cases (s == 4)) [
    | inl e ↦ rw e (Quiet-refl machine_laws (reading_with f) 50 52 v)
    | inr e ↦
        rw e (record {
          same_cell = refl;
          same_observable = refl;
          same_count = refl;
          same_limit = refl;
        })
  ]

  unref-Quiet :
      (g : Ptr) (ptr : Option Ptr) (v : World Machine)
      → Quiet machine_laws (reading_with f) 50 52 v ((reading_with f).call_unref g ptr v)
  unref-Quiet g none v = Quiet-refl machine_laws (reading_with f) 50 52 v
  unref-Quiet g (some x) v = record {
    same_cell = refl;
    same_observable = refl;
    same_count = refl;
    same_limit = refl;
  }

  pub reading-Spares : Spares machine_laws (reading_with f) 50 52
  reading-Spares = record {
    handlers = reads-Quiet;
    refs = λ g x s v n. ref-Quiet g x s v;
    unrefs = λ g ptr v n. unref-Quiet g ptr v;
  }

pub accepting-Spares : Spares machine_laws reading 50 52
accepting-Spares = reading-Spares accept_all

get-set_example :
    let w1 = (weave_observable_set_unchecked machine reading (some 50) (some 55) start).1 in
    let (ret, w2) = weave_observable_get_unchecked machine reading (some 50) (some 56) w1 in
    (ret ≡ pos 0) × (take 2 (w2.memory 56) ≡ 8 ∷ 9 ∷ [])
unfolding weave_observable_validate
get-set_example =
    get-set machine_laws reading 50 52 55 start (record { buffer = refl; idle = refl; free = refl })
      (omega arith) accepting-Spares 56 refl refl

notify-log_example : (notify machine app 50 start).1.kernel.log ≡ (12, some 50) ∷ (10, some 50) ∷ []
unfolding immediate_calls
notify-log_example =
    notify-log app-Logged 50 (λ h ptr ud v. refl) (λ h ptr ud v. refl) 40 start refl refl
