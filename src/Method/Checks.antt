-- ===== src/Method/Checks.antt =====
-- The size checks of src/method.c.
use zephyr_io.Prelude.{
  ℕ, ◌≡◌, ◌<◌, ◌≤◌, ◌⊎◌, inl, inr, Option, some, true, false, neg, einval, arith,
}
use zephyr_io.World.{Ptr, Method, World}
use zephyr_io.Kernel.{Kernel, Program}
use zephyr_io.Method.{sizes_refused, weave_method_call_unchecked, weave_method_call_async}

refused_of_short :
    (m : Method) (req res : ℕ)
    → (req < m.request_size) ⊎ (res < m.response_size)
    → sizes_refused m req res ≡ true
unfolding sizes_refused
refused_of_short m req res (inl h) = ground arith
refused_of_short m req res (inr h) = ground arith

module _ {K : Type 0} (k : Kernel K) (p : Program K) where
  -- A call, synchronous or not, whose request or response buffer is smaller than the method's type
  -- returns -EINVAL and changes nothing: nothing is sent.
  pub call-short :
      (m : Ptr) (request response : Option Ptr) (req res : ℕ) (ctx : Ptr) (w : World K)
      → (req < (p.method_at m).request_size) ⊎ (res < (p.method_at m).response_size)
      → (weave_method_call_unchecked k p (some m) request req response res ctx w ≡ (neg einval, w))
        × (weave_method_call_async k p (some m) request req response res (some ctx) w
            ≡ (neg einval, w))
  unfolding weave_method_call_unchecked weave_method_call_async
  call-short m request response req res ctx w h =
      let e = refused_of_short (p.method_at m) req res h in (rw e, rw e)

-- Buffers that are large enough pass the checks.
pub accepted_of_large :
    (m : Method) (req res : ℕ)
    → m.request_size ≤ req
    → m.response_size ≤ res
    → sizes_refused m req res ≡ false
unfolding sizes_refused
accepted_of_large m req res h1 h2 = ground arith
