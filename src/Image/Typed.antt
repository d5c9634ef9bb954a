-- ===== src/Image/Typed.antt =====
-- A typed call of a method that its macro lays out.
use zephyr_io.Prelude.{ℕ, ◌≡◌, Option, none}
use zephyr_io.World.{Ptr, Method, World}
use zephyr_io.Kernel.{Kernel, Program}
use zephyr_io.Method.{weave_method_dispatch}
use zephyr_io.Image.Macros.{weave_method_define}

-- The method at `m` and its sink are as the macro lays them out, without a queue; `dispatch` is the
-- address of weave_method_dispatch.
pub record LaidOut {K : Type 0} (k : Kernel K) (p : Program K) (m sink dispatch handler : Ptr)
    (user_data : Option Ptr) (req_type res_type : Option ℕ) : Type 0 where
  pub method_is :
      p.method_at m
      ≡ (weave_method_define m sink dispatch handler none user_data req_type res_type).method
  pub sink_is :
      p.sink_at sink
      ≡ (weave_method_define m sink dispatch handler none user_data req_type res_type).sink
  pub dispatches :
      (ptr ud : Option Ptr) (w : World K)
      → p.call dispatch ptr ud w ≡ weave_method_dispatch k p ptr ud w
