-- ===== src/Slab/Leak.antt =====
-- The demonstration loses no block of the slab.
use zephyr_io.Prelude.{
  ℕ, zero, suc, ◌+◌, ◌%◌, ◌^◌, ◌≡◌, ◌∙◌, refl, ap, sym, inl, inr, Option, none, some, [], ◌∷◌, ℤ,
  pos, Option-cases,
}
use zephyr_io.World.{Ptr, Source, World}
use zephyr_io.Kernel.{Timeout, no_wait, ticks, Kernel, Program}
use zephyr_io.Core.{weave_source_emit, emit_from, sink_deliver, release_ref}
use zephyr_io.Core.Deliver.{take_ref-none, sink_deliver-immediate}
use zephyr_io.Slab.Demo.{
  SlabServices, slab_ops, slab_unref, sensor_msg_alloc, fill_msg, send_reading, readings_from,
  simulate_sensor_readings,
}

-- `free` counts the free blocks: an allocation that succeeds takes one, and a free gives it back.
pub record Counts {K : Type 0} (slab : SlabServices K) (free : K → ℕ) : Type 0 where
  pub allocated :
      (t : Timeout) (s : K) (b : Ptr)
      → (slab.mem_slab_alloc t s).0 ≡ some b
      → free s ≡ suc (free (slab.mem_slab_alloc t s).1)
  pub exhausted :
      (t : Timeout) (s : K)
      → (slab.mem_slab_alloc t s).0 ≡ none
      → free (slab.mem_slab_alloc t s).1 ≡ free s
  pub freed : (b : Ptr) (s : K) → free (slab.mem_slab_free b s) ≡ suc (free s)
  pub timed : (s : K) → free (slab.uptime_get_32 s).1 ≡ free s
  pub slept : (n : ℕ) (s : K) → free (slab.msleep n s) ≡ free s

-- The statics of the sample: one immediate sink, wired to a source with the ops of the slab. The
-- handler leaves the slab and the wiring alone.
pub record Wired {K : Type 0} (p : Program K) (slab : SlabServices K)
    (source sink ops unref h : Ptr) (free : K → ℕ) : Type 0 where
  pub has_ops : p.ops_at ops ≡ slab_ops unref
  pub unrefs : (b : Ptr) (w : World K) → p.call_unref unref (some b) w ≡ slab_unref slab b w
  pub has_handler : (p.sink_at sink).handler ≡ some h
  pub immediate : (p.sink_at sink).queue ≡ none
  pub keeps_free :
      (ptr ud : Option Ptr) (w : World K) → free (p.call h ptr ud w).kernel ≡ free w.kernel
  pub keeps_sources : (ptr ud : Option Ptr) (w : World K) → (p.call h ptr ud w).sources ≡ w.sources

module _ {K : Type 0} (k : Kernel K) {p : Program K} {slab : SlabServices K}
    {source sink ops unref h : Ptr} {free : K → ℕ} (c : Counts slab free)
    (d : Wired p slab source sink ops unref h free) where
  -- The source as it is wired at boot.
  abbrev pub sensor_source : Source
  sensor_source = record {
    sinks = record { source = some source; sink = some sink } ∷ [];
    ops = some ops;
  }

  released :
      (b : Ptr) (w : World K)
      → release_ref p (some ops) (some b) w ≡ record w { kernel = slab.mem_slab_free b w.kernel }
  unfolding release_ref slab_unref
  released b w = rw (d.has_ops, release_ref) (d.unrefs b w)

  -- The message goes to the handler, and its block back to the slab.
  delivered :
      (b : Ptr) (t : Timeout) (w : World K)
      → let v = p.call h (some b) (p.sink_at sink).user_data w in
        sink_deliver k p (some sink) (some b) (some ops) t w
        ≡ (pos 0, record v { kernel = slab.mem_slab_free b v.kernel })
  delivered b t w =
      let took = take_ref-none k p (some ops) b sink w (ap (λ o. o.ref) d.has_ops) in
      sink_deliver-immediate k p sink h b (some ops) t w d.has_handler (rw took) d.immediate
      ∙ ap
          (λ (x : ℤ × World K). (
            pos 0,
            release_ref p (some ops) (some b) (p.call h (some b) (p.sink_at sink).user_data x.1),
          ))
          took
      ∙ ap (λ (v : World K). (pos 0, v))
          (released b (p.call h (some b) (p.sink_at sink).user_data w))

  -- The world after an emission of a block.
  abbrev handled : Ptr → World K → World K
  handled b w =
      let v = p.call h (some b) (p.sink_at sink).user_data w in
      record v { kernel = slab.mem_slab_free b v.kernel }

  emitted :
      (b : Ptr) (w : World K)
      → w.sources source ≡ sensor_source
      → weave_source_emit k p (some source) (some b) no_wait w ≡ (pos 1, handled b w)
  unfolding weave_source_emit emit_from
  emitted b w e =
      rw (e, delivered b (k.timepoint_timeout (k.timepoint_calc no_wait w.kernel) w.kernel) w) refl

  sent :
      (b : Ptr) (i seq : ℕ) (w : World K)
      → w.sources source ≡ sensor_source
      → let v = send_reading k p slab source b i seq w in
        (v.sources source ≡ sensor_source) × (free v.kernel ≡ suc (free w.kernel))
  unfolding send_reading
  sent b i seq w e =
      let w1 = fill_msg k p slab source b i seq w in
      let e1 : w1.sources source ≡ sensor_source = unfold fill_msg in e in
      rw (emitted b w1 e1) (
        ap (λ f. f source) (d.keeps_sources (some b) (p.sink_at sink).user_data w1) ∙ e,
        c.slept 100 _
            ∙ c.freed b _
            ∙ ap suc (
                d.keeps_free (some b) (p.sink_at sink).user_data w1
                ∙ (unfold fill_msg in c.timed w.kernel)),
      )

  readings_keep :
      (rounds i seq : ℕ) (w : World K)
      → w.sources source ≡ sensor_source
      → let v = (readings_from k p slab source rounds i seq w).1 in
        (v.sources source ≡ sensor_source) × (free v.kernel ≡ free w.kernel)
  unfolding readings_from sensor_msg_alloc
  readings_keep zero i seq w e = (e, refl)
  readings_keep (suc rounds) i seq w e =
      let s = (slab.mem_slab_alloc (ticks 100) w.kernel).1 in
      let w1 : World K = record w { kernel = s } in
      elim (Option-cases (slab.mem_slab_alloc (ticks 100) w.kernel).0) [
        | inl no_block ↦
            rw (no_block, readings_from)
              (let (wired, count) = readings_keep rounds (i + 1) seq w1 e in
                (wired, count ∙ c.exhausted (ticks 100) w.kernel no_block))
        | inr (b, got) ↦
            rw (got, readings_from)
              (let (wired1, count1) = sent b i seq w1 e in
                let (wired, count) =
                  readings_keep rounds (i + 1) ((seq + 1) % 2 ^ 32)
                    (send_reading k p slab source b i seq w1) wired1 in
                (wired, count ∙ count1 ∙ sym (c.allocated (ticks 100) w.kernel b got)))
      ]

  -- With the source wired to one immediate sink whose handler leaves the slab alone, the
  -- demonstration ends with as many free blocks as it started with, whichever allocations fail: a
  -- block that is sent comes back through the `unref` of the source's ops.
  pub simulate_sensor_readings-free :
      (seq : ℕ) (w : World K)
      → w.sources source ≡ sensor_source
      → free (simulate_sensor_readings k p slab source seq w).1.kernel ≡ free w.kernel
  unfolding simulate_sensor_readings
  simulate_sensor_readings-free seq w e = (readings_keep 5 0 seq w e).1
