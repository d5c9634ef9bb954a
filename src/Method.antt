-- ===== src/Method.antt =====
-- src/method.c: a call travels as its context through the method's sink.
pub mod Checks
pub mod Complete
pub mod Immediate
pub mod Queued
pub mod Answer
use zephyr_io.Prelude.{
  ℕ, Option, none, some, Bool, ℤ, pos, neg, is_zero, einval, eagain, ltb, ◌&&◌, ◌||◌, if◌then◌else◌,
}
use zephyr_io.World.{Ptr, Method, MethodContext, World, update}
use zephyr_io.Kernel.{Timeout, forever, Kernel, Program}
use zephyr_io.Core.{weave_sink_send}

-- The size checks of a call; a size of 0 in the method asks for nothing.
unfoldable pub sizes_refused : Method → ℕ → ℕ → Bool
sizes_refused m request_size response_size =
    (ltb 0 m.request_size && ltb request_size m.request_size)
    || (ltb 0 m.response_size && ltb response_size m.response_size)

-- `ctx->result = r`
abbrev pub set_result : {K : Type 0} → Ptr → ℤ → World K → World K
set_result ctx r w = record w {
  contexts = update w.contexts ctx (record (w.contexts ctx) { result = r });
}

module _ {K : Type 0} (k : Kernel K) where
  -- The context of a call is filled in, and its semaphore starts at 0.
  unfoldable pub init_context : Ptr → Option Ptr → Option Ptr → World K → World K
  init_context ctx request response w = record w {
    contexts =
        update w.contexts ctx
          (record (w.contexts ctx) { result = pos 0; request = request; response = response });
    kernel = k.sem_init (w.contexts ctx).completion 0 1 w.kernel;
  }

  -- `ctx->result = r` and `k_sem_give(&ctx->completion)`
  unfoldable pub complete : Ptr → ℤ → World K → World K
  complete ctx r w = record (set_result ctx r w) {
    kernel = k.sem_give (w.contexts ctx).completion w.kernel;
  }

  unfoldable pub weave_method_wait : Option Ptr → Timeout → World K → ℤ × World K
  weave_method_wait none timeout w = (neg einval, w)
  weave_method_wait (some ctx) timeout w =
      let (ret, s) = k.sem_take (w.contexts ctx).completion timeout w.kernel in
      if is_zero ret
      then ((w.contexts ctx).result, record w { kernel = s })
      else (neg eagain, record w { kernel = s })

  -- The end of a synchronous call, behind the send: K_FOREVER cannot time out.
  unfoldable pub await_result : Ptr → ℤ → World K → ℤ × World K
  await_result ctx ret w =
      let w1 = record w { kernel = (k.sem_take (w.contexts ctx).completion forever w.kernel).1 } in
      if is_zero ret then ((w1.contexts ctx).result, w1) else (ret, w)

module _ {K : Type 0} (k : Kernel K) (p : Program K) where
  -- The context goes to the method's sink, with no payload ops and no limit on the time.
  unfoldable pub send_context : Ptr → Option Ptr → Option Ptr → Ptr → World K → ℤ × World K
  send_context m request response ctx w =
      weave_sink_send k p (some (p.method_at m).sink) (some ctx) none forever
        (init_context k ctx request response w)

  -- The context of a synchronous call stands on the caller's stack, at `ctx`.
  unfoldable pub weave_method_call_unchecked :
      Option Ptr → Option Ptr → ℕ → Option Ptr → ℕ → Ptr → World K → ℤ × World K
  weave_method_call_unchecked none request request_size response response_size ctx w =
      (neg einval, w)
  weave_method_call_unchecked (some m) request request_size response response_size ctx w =
      let (ret, w') = send_context m request response ctx w in
      if sizes_refused (p.method_at m) request_size response_size
      then (neg einval, w)
      else await_result k ctx ret w'

  unfoldable pub weave_method_call_async :
      Option Ptr → Option Ptr → ℕ → Option Ptr → ℕ → Option Ptr → World K → ℤ × World K
  weave_method_call_async none request request_size response response_size ctx w = (neg einval, w)
  weave_method_call_async (some m) request request_size response response_size none w =
      (neg einval, w)
  weave_method_call_async (some m) request request_size response response_size (some ctx) w =
      let sent = send_context m request response ctx w in
      if sizes_refused (p.method_at m) request_size response_size then (neg einval, w) else sent

  -- The handler of every method's sink: `ptr` is the context, `user_data` the method.
  unfoldable pub weave_method_dispatch : Option Ptr → Option Ptr → World K → World K
  weave_method_dispatch none user_data w = w
  weave_method_dispatch (some ctx) none w = complete k ctx (neg einval) w
  weave_method_dispatch (some ctx) (some m) w =
      let (r, w') =
        p.call_method (p.method_at m).handler (w.contexts ctx).request (w.contexts ctx).response
          (p.method_at m).user_data w in
      complete k ctx r w'
