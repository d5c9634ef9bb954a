-- ===== src/Tests/Machine.antt =====
-- A small kernel with bounded queues, counting semaphores, reference counts and a log of calls,
-- and an application on it. They show that what the theorems assume can be met.
use zephyr_io.Prelude.{
  ℕ, zero, suc, ◌+◌, ◌-◌, ◌≡◌, refl, ap, ◌≤◌, ◌<◌, Option, none, some, List, [], ◌∷◌, ◌++◌, false,
  ℤ, pos, neg, is_zero, eacces, arith, length, ltb, ◌==◌, if◌then◌else◌,
}
use zephyr_io.World.{Ptr, PayloadOps, Sink, Connection, Event, World, update}
use zephyr_io.Kernel.{
  Timeout, no_wait, forever, ticks, Kernel, Program, View, set_queue, set_count, Lawful,
}
use zephyr_io.Core.Log.{Call}

pub record Machine : Type 0 where
  pub view : View
  pub refs : Ptr → ℕ
  pub log : List Call

abbrev pub put : Ptr → Event → Timeout → Machine → ℤ × Machine
put q e t s =
    if ltb (length (s.view.queued q)) (s.view.capacity q)
    then (pos 0, record s { view = set_queue s.view q (s.view.queued q ++ e ∷ []) })
    else (neg 35, s)

abbrev pub no_event : Event
no_event = record { sink = none; ptr = none; ops = none }

abbrev pub get_from : List Event → Ptr → Timeout → Machine → Option Event × Machine
get_from (e ∷ es) q t s = (some e, record s { view = set_queue s.view q es })
get_from [] q forever s = (some no_event, s)
get_from [] q no_wait s = (none, s)
get_from [] q (ticks n) s = (none, s)

abbrev take_from : ℕ → Ptr → Machine → ℤ × Machine
take_from zero sem s = (neg 16, s)
take_from (suc n) sem s = (pos 0, record s { view = set_count s.view sem n })

abbrev calc : Timeout → ℕ
calc no_wait = 0
calc forever = 1
calc (ticks n) = suc (suc n)

abbrev remaining : ℕ → Timeout
remaining zero = no_wait
remaining (suc zero) = forever
remaining (suc (suc n)) = ticks n

abbrev pub machine : Kernel Machine
machine = record {
  msgq_put = put;
  msgq_get = λ q t s. get_from (s.view.queued q) q t s;
  sem_init = λ sem n m s. record s {
    view = record (s.view) { count = update s.view.count sem n; limit = update s.view.limit sem m };
  };
  sem_take = λ sem t s. take_from (s.view.count sem) sem s;
  sem_give = λ sem s. record s {
    view = set_count s.view sem (
        if ltb (s.view.count sem) (s.view.limit sem)
        then s.view.count sem + 1
        else s.view.count sem);
  };
  timepoint_calc = λ t s. calc t;
  timepoint_timeout = λ n s. remaining n;
  slist_append = λ cs c. cs ++ c ∷ [];
}

pub put_ok_lem :
    (q : Ptr) (e : Event) (t : Timeout) (s : Machine)
    → (put q e t s).0 ≡ pos 0
    → (put q e t s).1.view ≡ set_queue s.view q (s.view.queued q ++ e ∷ [])
put_ok_lem q e t s h = ground arith

pub put_err_lem :
    (q : Ptr) (e : Event) (t : Timeout) (s : Machine)
    → is_zero (put q e t s).0 ≡ false
    → (put q e t s).1.view ≡ s.view
put_err_lem q e t s h = ground arith

pub put_room_lem :
    (q : Ptr) (e : Event) (t : Timeout) (s : Machine)
    → length (s.view.queued q) < s.view.capacity q
    → (put q e t s).0 ≡ pos 0
put_room_lem q e t s h = ground arith

pub put_full_lem :
    (q : Ptr) (e : Event) (s : Machine)
    → s.view.capacity q ≤ length (s.view.queued q)
    → is_zero (put q e no_wait s).0 ≡ false
put_full_lem q e s h = ground arith

-- Taking an event out touches the queues only.
pub get_from-rest :
    (l : List Event) (q : Ptr) (t : Timeout) (s : Machine)
    → ((get_from l q t s).1.refs ≡ s.refs) × ((get_from l q t s).1.log ≡ s.log)
get_from-rest [] q no_wait s = (refl, refl)
get_from-rest [] q forever s = (refl, refl)
get_from-rest [] q (ticks n) s = (refl, refl)
get_from-rest (e ∷ l) q t s = (refl, refl)

pub get_head_lem :
    (q : Ptr) (t : Timeout) (s : Machine) (e : Event) (es l : List Event)
    → l ≡ e ∷ es
    → ((get_from l q t s).0 ≡ some e) × ((get_from l q t s).1.view ≡ set_queue s.view q es)
get_head_lem q t s e es [] h = absurd (ground arith)
get_head_lem q t s e es (f ∷ l) h = (cc, ap (set_queue s.view q) (cc))

abbrev pub machine_laws : Lawful machine
machine_laws = record {
  view = λ s. s.view;
  put_ok = put_ok_lem;
  put_err = put_err_lem;
  put_room = put_room_lem;
  put_full = put_full_lem;
  get_head = λ q t s e es h. get_head_lem q t s e es (s.view.queued q) h;
  get_empty = λ q s h. rw h (refl, refl);
  sem_init_count = λ sem n m s. refl;
  take_ready = λ sem t s n h. rw h (refl, refl);
  take_busy = λ sem s h. rw h (refl, refl);
  give_count = λ sem s. refl;
  no_wait_stays = λ s s'. refl;
  forever_stays = λ s s'. refl;
  append_last = λ cs c. refl;
}

-- The application: sink 1 is immediate, sink 2 goes through queue 20, sink 3 has no handler, sink 4
-- is immediate and refused by the ops at 30. The ops at 30 count references, those at 40 are the
-- passthrough ops of an observable.
abbrev sink_at : Ptr → Sink
sink_at s =
    if s == 1
    then record { handler = some 10; user_data = some 5; queue = none }
    else if s == 2
    then record { handler = some 11; user_data = none; queue = some 20 }
    else if s == 4
    then record { handler = some 12; user_data = none; queue = none }
    else record { handler = none; user_data = none; queue = none }

abbrev ops_at : Ptr → PayloadOps
ops_at o =
    if o == 30
    then record { ref = some 31; unref = some 32 }
    else record { ref = none; unref = none }

abbrev pub link : Ptr → Ptr → Connection
link source sink = record { source = some source; sink = some sink }

abbrev call : Ptr → Option Ptr → Option Ptr → World Machine → World Machine
call h ptr ud w = record w { kernel = record (w.kernel) { log = w.kernel.log ++ (h, ptr) ∷ [] } }

abbrev call_ref : Ptr → Ptr → Ptr → World Machine → ℤ × World Machine
call_ref f x s w = if s == 4 then (neg eacces, w) else (
  pos 0,
  record w { kernel = record (w.kernel) { refs = update w.kernel.refs x (w.kernel.refs x + 1) } },
)

abbrev call_unref : Ptr → Option Ptr → World Machine → World Machine
call_unref g none w = w
call_unref g (some x) w = record w {
  kernel = record (w.kernel) { refs = update w.kernel.refs x (w.kernel.refs x - 1) };
}

abbrev pub app : Program Machine
app = record {
  sink_at = sink_at;
  ops_at = ops_at;
  method_at =
      λ m. record { sink = 1; handler = 60; user_data = none; request_size = 4; response_size = 0 };
  connections = link 100 1 ∷ record { source = none; sink = some 1 } ∷ link 101 4 ∷ link 100 2 ∷ [];
  call = call;
  call_ref = call_ref;
  call_unref = call_unref;
  call_method = λ h req res ud w. (pos 3, w);
  call_validator = λ v obs value ud w. (pos 0, w);
}

abbrev start_view : View
start_view = record { queued = λ q. []; capacity = λ q. 2; count = λ s. 1; limit = λ s. 1 }

abbrev pub start : World Machine
start = record {
  kernel = record { view = start_view; refs = λ x. 1; log = [] };
  sources = λ s. record {
    sinks =
        if s == 102
        then link 102 1 ∷ link 102 2 ∷ link 102 4 ∷ []
        else if s == 51
        then link 51 1 ∷ link 51 2 ∷ []
        else [];
    ops = if s == 102 then some 30 else if s == 51 then some 40 else none;
  };
  observables = λ a. record {
    source = 51;
    value = some 52;
    size = 2;
    sem = 53;
    owner_sink = 4;
    validator = none;
    publishing = false;
  };
  contexts = λ c. record { completion = 70; result = pos 0; request = none; response = none };
  memory = λ a. if a == 55 then 8 ∷ 9 ∷ [] else 0 ∷ 0 ∷ [];
}

-- Queues that are always full, semaphores that are never free.
abbrev pub quiet_kernel : {K : Type 0} → Kernel K
quiet_kernel = record {
  msgq_put = λ q e t s. (neg 35, s);
  msgq_get = λ q t s. (none, s);
  sem_init = λ sem n m s. s;
  sem_take = λ sem t s. (neg 16, s);
  sem_give = λ sem s. s;
  timepoint_calc = λ t s. 0;
  timepoint_timeout = λ n s. no_wait;
  slist_append = λ cs c. cs ++ c ∷ [];
}
