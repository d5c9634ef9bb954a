-- ===== src/Image/Macros.antt =====
-- The macros of include/weave/core.h, observable.h, method.h and packet.h as functions: what they
-- lay out, and the calls that they expand to.
use zephyr_io.Prelude.{ℕ, Option, none, some, [], false, ℤ}
use zephyr_io.World.{Ptr, Source, Sink, Connection, Observable, Method, World}
use zephyr_io.Kernel.{Kernel, Program}
use zephyr_io.Method.{weave_method_call_unchecked, weave_method_call_async}
use zephyr_io.Packet.{PacketPool, PacketSinkCtx}

unfoldable pub weave_source_initializer : Option Ptr → Source
weave_source_initializer ops = record { sinks = []; ops = ops }

unfoldable pub weave_sink_initializer : Option Ptr → Option Ptr → Option Ptr → Sink
weave_sink_initializer handler queue user_data = record {
  handler = handler;
  user_data = user_data;
  queue = queue;
}

-- WEAVE_CONNECT and WEAVE_OBSERVER_CONNECT
unfoldable pub weave_connect : Ptr → Ptr → Connection
weave_connect source sink = record { source = some source; sink = some sink }

unfoldable pub weave_observer_connect : Observable → Ptr → Connection
unfolding weave_connect
weave_observer_connect observable observer = weave_connect observable.source observer

-- What WEAVE_OBSERVABLE_DEFINE lays out: the observable with the source and the sink that it
-- embeds, and its semaphore's count and limit.
pub record ObservableStatics : Type 0 where
  pub observable : Observable
  pub source : Source
  pub owner_sink : Sink
  pub sem_count : ℕ
  pub sem_limit : ℕ

-- The addresses inside the static: of the source, of the semaphore and of the sink, and of the
-- value's buffer.
pub record ObservableLayout : Type 0 where
  pub source : Ptr
  pub sem : Ptr
  pub owner_sink : Ptr
  pub value : Ptr

unfoldable pub weave_observable_define :
    ObservableLayout
    → Ptr
    → ℕ
    → Option Ptr
    → Option Ptr
    → Option Ptr
    → Option Ptr
    → ObservableStatics
unfolding weave_source_initializer weave_sink_initializer
weave_observable_define at_ ops size handler queue user_data validator = record {
  observable = record {
    source = at_.source;
    value = some at_.value;
    size = size;
    sem = at_.sem;
    owner_sink = at_.owner_sink;
    validator = validator;
    publishing = false;
  };
  source = weave_source_initializer (some ops);
  owner_sink = weave_sink_initializer handler queue user_data;
  sem_count = 1;
  sem_limit = 1;
}

-- WEAVE_OBSERVER_DEFINE
unfoldable pub weave_observer_define : Option Ptr → Option Ptr → Option Ptr → Sink
unfolding weave_sink_initializer
weave_observer_define handler queue user_data = weave_sink_initializer handler queue user_data

-- A type as the macros see it: its size, or WV_VOID.
unfoldable pub weave_type_size : Option ℕ → ℕ
weave_type_size none = 0
weave_type_size (some size) = size

-- A pointer argument: its address and the size of what it points to, or WV_VOID.
unfoldable pub weave_ptr_or_null : Option (Ptr × ℕ) → Option Ptr
weave_ptr_or_null none = none
weave_ptr_or_null (some (ptr, size)) = some ptr

unfoldable pub weave_size_of_ptr : Option (Ptr × ℕ) → ℕ
weave_size_of_ptr none = 0
weave_size_of_ptr (some (ptr, size)) = size

-- What WEAVE_METHOD_DEFINE lays out: the method and the sink that it embeds.
pub record MethodStatics : Type 0 where
  pub method : Method
  pub sink : Sink

-- The addresses of the method, of its sink and of weave_method_dispatch come first.
unfoldable pub weave_method_define :
    Ptr → Ptr → Ptr → Ptr → Option Ptr → Option Ptr → Option ℕ → Option ℕ → MethodStatics
unfolding weave_sink_initializer weave_type_size
weave_method_define name sink dispatch handler queue user_data req_type res_type = record {
  method = record {
    sink = sink;
    handler = handler;
    user_data = user_data;
    request_size = weave_type_size req_type;
    response_size = weave_type_size res_type;
  };
  sink = weave_sink_initializer (some dispatch) queue (some name);
}

module _ {K : Type 0} (k : Kernel K) (p : Program K) where
  -- WEAVE_METHOD_CALL; the context on the stack lies at `ctx`.
  unfoldable pub weave_method_call :
      Ptr → Option (Ptr × ℕ) → Option (Ptr × ℕ) → Ptr → World K → ℤ × World K
  unfolding weave_ptr_or_null weave_size_of_ptr weave_method_call_unchecked
  weave_method_call method req res ctx w =
      weave_method_call_unchecked k p (some method) (weave_ptr_or_null req) (weave_size_of_ptr req)
        (weave_ptr_or_null res) (weave_size_of_ptr res) ctx w

  -- WEAVE_METHOD_CALL_ASYNC
  unfoldable pub weave_method_call_with :
      Ptr → Option (Ptr × ℕ) → Option (Ptr × ℕ) → Option Ptr → World K → ℤ × World K
  unfolding weave_ptr_or_null weave_size_of_ptr weave_method_call_async
  weave_method_call_with method req res ctx w =
      weave_method_call_async k p (some method) (weave_ptr_or_null req) (weave_size_of_ptr req)
        (weave_ptr_or_null res) (weave_size_of_ptr res) ctx w

-- WEAVE_PACKET_POOL_DEFINE: the pool, and the value at which its atomic counter starts.
unfoldable pub weave_packet_pool_define : Ptr → Ptr → PacketPool × ℕ
weave_packet_pool_define net_buf_pool counter =
    (record { pool = some net_buf_pool; counter = counter }, 0)

-- WEAVE_PACKET_SOURCE_DEFINE; `weave_packet_ops` is the address of the ops.
unfoldable pub weave_packet_source_define : Ptr → Source
unfolding weave_source_initializer
weave_packet_source_define weave_packet_ops = weave_source_initializer (some weave_packet_ops)

-- What WEAVE_PACKET_SINK_DEFINE lays out, for a context at `ctx` and the wrapper at `wrapper`.
pub record PacketSinkStatics : Type 0 where
  pub ctx : PacketSinkCtx
  pub sink : Sink

unfoldable pub weave_packet_sink_define :
    Ptr → Ptr → Option Ptr → ℕ → Option Ptr → PacketSinkStatics
unfolding weave_sink_initializer
weave_packet_sink_define ctx wrapper queue filter user_data = record {
  ctx = record { filter = filter; user_data = user_data };
  sink = weave_sink_initializer (some wrapper) queue (some ctx);
}

-- The wrapper that the macro defines: the handler is called with the user data of the context.
unfoldable pub packet_sink_wrapper :
    {K : Type 0}
    → (Ptr → PacketSinkCtx)
    → (Option Ptr → Option Ptr → World K → World K)
    → Option Ptr
    → Ptr
    → World K
    → World K
packet_sink_wrapper ctx_at handler ptr ctx w = handler ptr (ctx_at ctx).user_data w
