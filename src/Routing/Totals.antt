-- ===== src/Routing/Totals.antt =====
-- The counters of cmd_handler.c add up.
use zephyr_io.Prelude.{ℕ, ◌+◌, ◌%◌, ◌^◌, ◌≡◌, inl, inr, List, [], ◌∷◌, arith, ◌==◌, Bool-cases}
use zephyr_io.Routing.Commands.{
  CommandStats, cmd_start_sampling, cmd_stop_sampling, cmd_handler_fn, handle_all,
}

-- The number of commands is the sum of the three kinds, in 32 bits.
abbrev pub AddsUp : CommandStats → Type 0
AddsUp st =
    st.commands_processed % 2 ^ 32
    ≡ (st.start_commands + st.stop_commands + st.unknown_commands) % 2 ^ 32

module _ {K : Type 0} (start stop : K → K) where
  cmd_handler_fn-AddsUp :
      (data_ : List ℕ) (st : CommandStats) (s : K)
      → AddsUp st
      → AddsUp (cmd_handler_fn start stop data_ (st, s)).0
  unfolding cmd_handler_fn
  cmd_handler_fn-AddsUp [] st s h = h
  cmd_handler_fn-AddsUp (cmd ∷ rest) st s h = elim (Bool-cases (cmd == cmd_start_sampling)) [
    | inl e ↦ rw e (omega (arith, h))
    | inr e ↦ elim (Bool-cases (cmd == cmd_stop_sampling)) [
      | inl e2 ↦ rw (e, e2) (omega (arith, h))
      | inr e2 ↦ rw (e, e2) (omega (arith, h))
    ]
  ]

  -- After any packets, empty ones and unknown commands included, the number of commands is that of
  -- the starts, stops and unknown ones together, modulo 2^32, if it was before.
  pub handle_all-AddsUp :
      (packets : List (List ℕ)) (st : CommandStats) (s : K)
      → AddsUp st
      → AddsUp (handle_all start stop packets (st, s)).0
  unfolding handle_all
  handle_all-AddsUp [] st s h = h
  handle_all-AddsUp (data_ ∷ packets) st s h =
      let out = cmd_handler_fn start stop data_ (st, s) in
      handle_all-AddsUp packets out.0 out.1 (cmd_handler_fn-AddsUp data_ st s h)
