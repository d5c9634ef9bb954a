-- ===== src/World.antt =====
-- The structs of include/weave/core.h, method.h and observable.h, and the memory that holds them.
use zephyr_io.Prelude.{ℕ, Option, List, Bool, ℤ, ◌==◌, if◌then◌else◌, ◌++◌, take, drop}

-- The address of an object or of a function. A pointer that may be NULL is an `Option Ptr`.
abbrev pub Ptr : Type 0
Ptr = ℕ

-- `struct weave_payload_ops`: two function pointers, each may be NULL.
pub record PayloadOps : Type 0 where
  pub ref : Option Ptr
  pub unref : Option Ptr

-- `struct weave_sink`; `queue` is NULL in immediate mode.
pub record Sink : Type 0 where
  pub handler : Option Ptr
  pub user_data : Option Ptr
  pub queue : Option Ptr

-- `struct weave_connection`, without the list node.
pub record Connection : Type 0 where
  pub source : Option Ptr
  pub sink : Option Ptr

-- `struct weave_source`: the connections wired to it, and its payload ops.
pub record Source : Type 0 where
  pub sinks : List Connection
  pub ops : Option Ptr

-- `struct weave_event`
pub record Event : Type 0 where
  pub sink : Option Ptr
  pub ptr : Option Ptr
  pub ops : Option Ptr

-- `struct weave_observable`. The semaphore `sem` is a kernel object, here its address; the source
-- and the owner's sink are embedded, here their addresses.
pub record Observable : Type 0 where
  pub source : Ptr
  pub value : Option Ptr
  pub size : ℕ
  pub sem : Ptr
  pub owner_sink : Ptr
  pub validator : Option Ptr
  pub publishing : Bool

-- `struct weave_method_context`; `completion` is the address of its semaphore.
pub record MethodContext : Type 0 where
  pub completion : Ptr
  pub result : ℤ
  pub request : Option Ptr
  pub response : Option Ptr

-- `struct weave_method`; `sink` is the address of the embedded sink.
pub record Method : Type 0 where
  pub sink : Ptr
  pub handler : Ptr
  pub user_data : Option Ptr
  pub request_size : ℕ
  pub response_size : ℕ

-- What the code can change: the structs by address, the byte buffers that `void *` values point
-- to, and the state `K` of the Zephyr kernel (queues, semaphores, network buffers, clock).
pub record World (K : Type 0) : Type 0 where
  pub kernel : K
  pub sources : Ptr → Source
  pub observables : Ptr → Observable
  pub contexts : Ptr → MethodContext
  pub memory : Ptr → List ℕ

-- One cell of a table of objects by address is written.
abbrev pub update {ℓ} : {A : Type ℓ} → (Ptr → A) → Ptr → A → Ptr → A
update f i a j = if i == j then a else f j

-- `memcpy(dst, src, n)` of C. A buffer is a list of bytes of its own.
abbrev pub copy_bytes : List ℕ → List ℕ → ℕ → List ℕ
copy_bytes dst src n = take n src ++ drop n dst

abbrev pub memcpy : {K : Type 0} → Ptr → Ptr → ℕ → World K → World K
memcpy dst src n w = record w {
  memory = update w.memory dst (copy_bytes (w.memory dst) (w.memory src) n);
}
