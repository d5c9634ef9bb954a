-- ===== src/Tests/SlabCases.antt =====
-- The theorem on samples/memslab_core/src/main.c at a slab of two blocks, the list of its free ones.
use zephyr_io.Prelude.{suc, ◌≡◌, refl, false, Option, none, some, List, [], ◌∷◌, pos, arith, length}
use zephyr_io.World.{Ptr, World}
use zephyr_io.Kernel.{Timeout, Program}
use zephyr_io.Core.{
  weave_source_emit, emit_from, sink_deliver, deliver_checked, take_ref, hand_over, release_ref,
}
use zephyr_io.Slab.Demo.{SlabServices, slab_ops, slab_unref, simulate_sensor_readings}
use zephyr_io.Slab.Leak.{Counts, Wired, simulate_sensor_readings-free}
use zephyr_io.Tests.Machine.{link, quiet_kernel}

abbrev alloc : Timeout → List Ptr → Option Ptr × List Ptr
alloc t [] = (none, [])
alloc t (b ∷ bs) = (some b, bs)

abbrev slab : SlabServices (List Ptr)
slab = record {
  mem_slab_alloc = alloc;
  mem_slab_free = λ b bs. b ∷ bs;
  uptime_get_32 = λ bs. (77, bs);
  msleep = λ n bs. bs;
}

allocated_lem :
    (t : Timeout) (s : List Ptr) (b : Ptr)
    → (alloc t s).0 ≡ some b
    → length s ≡ suc (length (alloc t s).1)
allocated_lem t [] b h = absurd (ground arith)
allocated_lem t (c ∷ s) b h = refl

exhausted_lem :
    (t : Timeout) (s : List Ptr) → (alloc t s).0 ≡ none → length (alloc t s).1 ≡ length s
exhausted_lem t [] h = refl
exhausted_lem t (c ∷ s) h = absurd (ground arith)

slab-Counts : Counts slab length
slab-Counts = record {
  allocated = allocated_lem;
  exhausted = exhausted_lem;
  freed = λ b s. refl;
  timed = λ s. refl;
  slept = λ n s. refl;
}

abbrev sample : Program (List Ptr)
sample = record {
  sink_at = λ s. record { handler = some 10; user_data = none; queue = none };
  ops_at = λ o. slab_ops 32;
  method_at =
      λ m. record { sink = 1; handler = 60; user_data = none; request_size = 0; response_size = 0 };
  connections = link 100 1 ∷ [];
  call = λ h ptr ud w. w;
  call_ref = λ f x s w. (pos 0, w);
  call_unref = λ g ptr w. elim ptr [ none ↦ w | some b ↦ record w { kernel = b ∷ w.kernel } ];
  call_method = λ h req res ud w. (pos 0, w);
  call_validator = λ v obs value ud w. (pos 0, w);
}

sample-Wired : Wired sample slab 100 1 30 32 10 length
unfolding slab_unref
sample-Wired = record {
  has_ops = refl;
  unrefs = λ b w. refl;
  has_handler = refl;
  immediate = refl;
  keeps_free = λ ptr ud w. refl;
  keeps_sources = λ ptr ud w. refl;
}

abbrev two_blocks : World (List Ptr)
two_blocks = record {
  kernel = 500 ∷ 600 ∷ [];
  sources = λ s. record { sinks = link 100 1 ∷ []; ops = some 30 };
  observables = λ a. record {
    source = 51;
    value = none;
    size = 0;
    sem = 53;
    owner_sink = 4;
    validator = none;
    publishing = false;
  };
  contexts = λ c. record { completion = 70; result = pos 0; request = none; response = none };
  memory = λ a. [];
}

-- Five messages were sent, the last one in the same block.
sends_five :
    ((simulate_sensor_readings quiet_kernel sample slab 100 0 two_blocks).0 ≡ 5)
    × ((simulate_sensor_readings quiet_kernel sample slab 100 0 two_blocks).1.memory 500
        ≡ 86 ∷ 9 ∷ 36 ∷ 19 ∷ 4 ∷ 0 ∷ 0 ∷ 0 ∷ 77 ∷ 0 ∷ 0 ∷ 0 ∷ [])
unfolding simulate_sensor_readings weave_source_emit emit_from sink_deliver deliver_checked take_ref
    hand_over release_ref
sends_five = (refl, refl)

simulate_sensor_readings-free_example :
    length (simulate_sensor_readings quiet_kernel sample slab 100 0 two_blocks).1.kernel ≡ 2
simulate_sensor_readings-free_example =
    simulate_sensor_readings-free quiet_kernel slab-Counts sample-Wired 0 two_blocks refl
