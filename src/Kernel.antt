-- ===== src/Kernel.antt =====
-- The Zephyr kernel services that the sources call, and the application that a build links in.
-- Both are parameters of the model; `Lawful` states the documented behaviour of the services.
use zephyr_io.Prelude.{
  ℕ, suc, ◌+◌, ◌≡◌, ◌≤◌, ◌<◌, Option, none, some, List, [], ◌∷◌, ◌++◌, false, ℤ, pos, is_zero,
  length, ltb, if◌then◌else◌,
}
use zephyr_io.World.{Ptr, PayloadOps, Sink, Connection, Event, Method, World, update}

-- `k_timeout_t`: K_NO_WAIT, K_FOREVER, or a number of ticks.
pub data Timeout : Type 0 where
  no_wait forever : Timeout
  ticks : ℕ → Timeout

-- Each call returns its C result and the kernel's state after it. Steps of other threads stand
-- between the calls, so a call is described by its own effect.
pub record Kernel (K : Type 0) : Type 0 where
  -- k_msgq_put: 0, or an error and no change of the queue
  pub msgq_put : Ptr → Event → Timeout → K → ℤ × K
  -- k_msgq_get: `some` is the result 0 with the event that it writes
  pub msgq_get : Ptr → Timeout → K → Option Event × K
  -- k_sem_init with its count and limit, k_sem_take, k_sem_give
  pub sem_init : Ptr → ℕ → ℕ → K → K
  pub sem_take : Ptr → Timeout → K → ℤ × K
  pub sem_give : Ptr → K → K
  -- sys_timepoint_calc, sys_timepoint_timeout
  pub timepoint_calc : Timeout → K → ℕ
  pub timepoint_timeout : ℕ → K → Timeout
  -- sys_slist_append
  pub slist_append : List Connection → Connection → List Connection

-- The statics that the definition macros lay out, and the functions behind function pointers.
pub record Program (K : Type 0) : Type 0 where
  pub sink_at : Ptr → Sink
  pub ops_at : Ptr → PayloadOps
  pub method_at : Ptr → Method
  -- the iterable section of `WEAVE_CONNECT`
  pub connections : List Connection
  -- a call through `weave_handler_t`, through `ops->ref` and through `ops->unref`
  pub call : Ptr → Option Ptr → Option Ptr → World K → World K
  pub call_ref : Ptr → Ptr → Ptr → World K → ℤ × World K
  pub call_unref : Ptr → Option Ptr → World K → World K
  -- a call through `weave_method_handler_t`: request, response, user data
  pub call_method : Ptr → Option Ptr → Option Ptr → Option Ptr → World K → ℤ × World K
  -- a call through `weave_observable_validator_t`: observable, new value, user data
  pub call_validator : Ptr → Ptr → Option Ptr → Option Ptr → World K → ℤ × World K

-- What the documentation of the services speaks of: the contents and the capacity of each queue,
-- the count and the limit of each semaphore.
pub record View : Type 0 where
  pub queued : Ptr → List Event
  pub capacity : Ptr → ℕ
  pub count : Ptr → ℕ
  pub limit : Ptr → ℕ

abbrev pub set_queue : View → Ptr → List Event → View
set_queue v queue es = record v { queued = update v.queued queue es }

abbrev pub set_count : View → Ptr → ℕ → View
set_count v sem n = record v { count = update v.count sem n }

-- The documented behaviour, each call at the state in which it takes effect. Nothing is said of a
-- K_FOREVER wait that nobody ends.
pub record Lawful {K : Type 0} (k : Kernel K) : Type 0 where
  pub view : K → View
  pub put_ok :
      (q : Ptr) (e : Event) (t : Timeout) (s : K)
      → (k.msgq_put q e t s).0 ≡ pos 0
      → view (k.msgq_put q e t s).1 ≡ set_queue (view s) q ((view s).queued q ++ e ∷ [])
  pub put_err :
      (q : Ptr) (e : Event) (t : Timeout) (s : K)
      → is_zero (k.msgq_put q e t s).0 ≡ false
      → view (k.msgq_put q e t s).1 ≡ view s
  pub put_room :
      (q : Ptr) (e : Event) (t : Timeout) (s : K)
      → length ((view s).queued q) < (view s).capacity q
      → (k.msgq_put q e t s).0 ≡ pos 0
  pub put_full :
      (q : Ptr) (e : Event) (s : K)
      → (view s).capacity q ≤ length ((view s).queued q)
      → is_zero (k.msgq_put q e no_wait s).0 ≡ false
  pub get_head :
      (q : Ptr) (t : Timeout) (s : K) (e : Event) (es : List Event)
      → (view s).queued q ≡ e ∷ es
      → ((k.msgq_get q t s).0 ≡ some e) × (view (k.msgq_get q t s).1 ≡ set_queue (view s) q es)
  pub get_empty :
      (q : Ptr) (s : K)
      → (view s).queued q ≡ []
      → ((k.msgq_get q no_wait s).0 ≡ none) × (view (k.msgq_get q no_wait s).1 ≡ view s)
  pub sem_init_count :
      (sem n m : ℕ) (s : K)
      → view (k.sem_init sem n m s) ≡ record (view s) {
        count = update (view s).count sem n;
        limit = update (view s).limit sem m;
      }
  pub take_ready :
      (sem : Ptr) (t : Timeout) (s : K) (n : ℕ)
      → (view s).count sem ≡ suc n
      → ((k.sem_take sem t s).0 ≡ pos 0) × (view (k.sem_take sem t s).1 ≡ set_count (view s) sem n)
  pub take_busy :
      (sem : Ptr) (s : K)
      → (view s).count sem ≡ 0
      → (is_zero (k.sem_take sem no_wait s).0 ≡ false)
        × (view (k.sem_take sem no_wait s).1 ≡ view s)
  pub give_count :
      (sem : Ptr) (s : K)
      → view (k.sem_give sem s)
        ≡ set_count (view s) sem (
            if ltb ((view s).count sem) ((view s).limit sem)
            then (view s).count sem + 1
            else (view s).count sem)
  pub no_wait_stays : (s s' : K) → k.timepoint_timeout (k.timepoint_calc no_wait s) s' ≡ no_wait
  pub forever_stays : (s s' : K) → k.timepoint_timeout (k.timepoint_calc forever s) s' ≡ forever
  pub append_last : (cs : List Connection) (c : Connection) → k.slist_append cs c ≡ cs ++ c ∷ []
