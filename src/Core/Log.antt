-- ===== src/Core/Log.antt =====
-- The handler calls that a run of src/core.c makes, in order.
use zephyr_io.Prelude.{◌≡◌, Option, none, some, List, [], ◌∷◌, ◌++◌}
use zephyr_io.World.{Ptr, Connection, Event, World}
use zephyr_io.Kernel.{Timeout, Kernel, Program, Lawful}
use zephyr_io.Core.{handler_of}

-- A handler and the payload that it was called with.
abbrev pub Call : Type 0
Call = Ptr × Option Ptr

-- `log` tells the handler calls so far: a call is at its end, and no other service or callback
-- writes to it. The callbacks leave the queue `q` alone.
pub record Logged {K : Type 0} {k : Kernel K} (L : Lawful k) (p : Program K) (q : Ptr)
    (log : World K → List Call) : Type 0 where
  pub log-call :
      (h : Ptr) (ptr ud : Option Ptr) (w : World K)
      → log (p.call h ptr ud w) ≡ log w ++ (h, ptr) ∷ []
  pub log-ref : (f x s : Ptr) (w : World K) → log (p.call_ref f x s w).1 ≡ log w
  pub log-unref : (g : Ptr) (ptr : Option Ptr) (w : World K) → log (p.call_unref g ptr w) ≡ log w
  pub log-put :
      (r : Ptr) (e : Event) (t : Timeout) (w : World K)
      → log (record w { kernel = (k.msgq_put r e t w.kernel).1 }) ≡ log w
  pub log-get :
      (r : Ptr) (t : Timeout) (w : World K)
      → log (record w { kernel = (k.msgq_get r t w.kernel).1 }) ≡ log w
  pub call_keeps :
      (h : Ptr) (ptr ud : Option Ptr) (w : World K)
      → (L.view (p.call h ptr ud w).kernel).queued q ≡ (L.view w.kernel).queued q
  pub unref_keeps :
      (g : Ptr) (ptr : Option Ptr) (w : World K)
      → (L.view (p.call_unref g ptr w).kernel).queued q ≡ (L.view w.kernel).queued q

-- The call that an event asks for, if its sink has a handler.
abbrev pub call_of : Option (Ptr × Option Ptr) → Option Ptr → List Call → List Call
call_of none ptr cs = cs
call_of (some (h, ud)) ptr cs = (h, ptr) ∷ cs

-- The handler of a sink that delivers at once.
abbrev pub at_once : Option Ptr → Option Ptr → Ptr → List Call → List Call
at_once (some h) none x cs = (h, some x) ∷ cs
at_once (some h) (some q) x cs = cs
at_once none q x cs = cs

module _ {K : Type 0} (p : Program K) where
  -- The calls that a list of events asks for.
  unfoldable pub calls : List Event → List Call
  calls [] = []
  calls (e ∷ es) = call_of (handler_of p e.sink) e.ptr (calls es)

  abbrev pub sink_calls : Option Ptr → Ptr → List Call → List Call
  sink_calls none x cs = cs
  sink_calls (some s) x cs = at_once (p.sink_at s).handler (p.sink_at s).queue x cs

  -- The calls that an emission makes in the sender's context: one for each connection to an
  -- immediate sink, in the order of wiring.
  unfoldable pub immediate_calls : List Connection → Ptr → List Call
  immediate_calls [] x = []
  immediate_calls (c ∷ cs) x = sink_calls c.sink x (immediate_calls cs x)
