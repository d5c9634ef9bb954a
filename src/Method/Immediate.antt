-- ===== src/Method/Immediate.antt =====
-- A call of src/method.c whose method runs in the caller's context.
use zephyr_io.Prelude.{ℕ, ◌≡◌, ◌≤◌, refl, ap, ◌∙◌, Option, none, some, false, ℤ, pos, is_neg}
use zephyr_io.World.{Ptr, World}
use zephyr_io.Kernel.{forever, Kernel, Program, Lawful}
use zephyr_io.Core.{take_ref, release_ref, weave_sink_send}
use zephyr_io.Core.Deliver.{take_ref-none, sink_deliver-immediate}
use zephyr_io.Method.{
  init_context, complete, await_result, send_context, weave_method_call_unchecked,
  weave_method_dispatch,
}
use zephyr_io.Method.Checks.{accepted_of_large}
use zephyr_io.Method.Complete.{IsOpen, init_context-IsOpen, complete-IsComplete, await-IsComplete}

-- What `WEAVE_METHOD_DEFINE` lays out for the method at `m`: its sink calls `weave_method_dispatch`,
-- which stands at `d`, with the method for user data.
pub record IsDefined {K : Type 0} (k : Kernel K) (p : Program K) (m d : Ptr) : Type 0 where
  pub handler : (p.sink_at (p.method_at m).sink).handler ≡ some d
  pub user_data : (p.sink_at (p.method_at m).sink).user_data ≡ some m
  pub dispatches :
      (ptr ud : Option Ptr) (w : World K) → p.call d ptr ud w ≡ weave_method_dispatch k p ptr ud w

module _ {K : Type 0} {k : Kernel K} (L : Lawful k) {p : Program K} {m d : Ptr}
    (def : IsDefined k p m d) (ctx sem : Ptr) where
  -- What the method's handler returns for the call, and the world that it leaves.
  abbrev pub handled : World K → ℤ × World K
  handled w =
      p.call_method (p.method_at m).handler (w.contexts ctx).request (w.contexts ctx).response
        (p.method_at m).user_data w

  pub dispatch-eq :
      (w : World K)
      → weave_method_dispatch k p (some ctx) (some m) w ≡ complete k ctx (handled w).0 (handled w).1
  unfolding weave_method_dispatch
  dispatch-eq w = refl

  pub dispatch_call :
      (w : World K)
      → p.call d (some ctx) (p.sink_at (p.method_at m).sink).user_data w
        ≡ complete k ctx (handled w).0 (handled w).1
  dispatch_call w =
      ap (λ ud. p.call d (some ctx) ud w) def.user_data
      ∙ def.dispatches (some ctx) (some m) w
      ∙ dispatch-eq w

  send-immediate :
      (request response : Option Ptr) (w : World K)
      → (p.sink_at (p.method_at m).sink).queue ≡ none
      → let w1 = init_context k ctx request response w in
        send_context k p m request response ctx w
        ≡ (pos 0, complete k ctx (handled w1).0 (handled w1).1)
  unfolding send_context weave_sink_send release_ref
  send-immediate request response w i =
      let w1 = init_context k ctx request response w in
      let took = take_ref-none k p none ctx (p.method_at m).sink w1 refl in
      let goes : is_neg (take_ref p none ctx (p.method_at m).sink w1).0 ≡ false = rw took in
      sink_deliver-immediate k p (p.method_at m).sink d ctx none forever w1 def.handler goes i
      ∙ ap
          (λ (v : ℤ × World K).
            (pos 0, p.call d (some ctx) (p.sink_at (p.method_at m).sink).user_data v.1))
          took
      ∙ ap (λ (v : World K). (pos 0, v)) (dispatch_call w1)

  -- A call of an immediate method with large enough buffers returns what the method's handler
  -- returns for this request, response buffer and the method's user data, if the handler leaves the
  -- call's context and semaphore alone.
  pub call-immediate :
      (request response : Option Ptr) (req res : ℕ) (w : World K)
      → (p.sink_at (p.method_at m).sink).queue ≡ none
      → (p.method_at m).request_size ≤ req
      → (p.method_at m).response_size ≤ res
      → (w.contexts ctx).completion ≡ sem
      → ((v : World K) → IsOpen L ctx sem v → IsOpen L ctx sem (handled v).1)
      → (weave_method_call_unchecked k p (some m) request req response res ctx w).0
        ≡ (handled (init_context k ctx request response w)).0
  unfolding weave_method_call_unchecked
  call-immediate request response req res w i h1 h2 here leaves =
      rw (accepted_of_large (p.method_at m) req res h1 h2) (
        ap (λ (c : ℤ × World K). (await_result k ctx c.0 c.1).0)
          (send-immediate request response w i)
        ∙ await-IsComplete L ctx sem _ _ (
            complete-IsComplete L ctx sem _ _
              (leaves _ (init_context-IsOpen L ctx sem request response w here))))
