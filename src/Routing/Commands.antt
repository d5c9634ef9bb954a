-- ===== src/Routing/Commands.antt =====
-- cmd_handler.c: the commands that start and stop sampling, and how many of each there were.
use zephyr_io.Prelude.{ℕ, ◌+◌, ◌%◌, ◌^◌, List, [], ◌∷◌, ◌==◌, if◌then◌else◌}

-- The static counters, of 32 bits.
pub record CommandStats : Type 0 where
  pub commands_processed : ℕ
  pub start_commands : ℕ
  pub stop_commands : ℕ
  pub unknown_commands : ℕ

abbrev pub cmd_start_sampling : ℕ
cmd_start_sampling = 1

abbrev pub cmd_stop_sampling : ℕ
cmd_stop_sampling = 2

-- `n++` on uint32_t
abbrev pub increment : ℕ → ℕ
increment n = (n + 1) % 2 ^ 32

-- `start` and `stop` are sensor_start_sampling and sensor_stop_sampling on the state of the kernel.
module _ {K : Type 0} (start stop : K → K) where
  unfoldable pub cmd_handler_fn : List ℕ → CommandStats × K → CommandStats × K
  cmd_handler_fn [] (stats, s) = (stats, s)
  cmd_handler_fn (cmd ∷ rest) (stats, s) =
      let counted = record stats { commands_processed = increment stats.commands_processed } in
      if cmd == cmd_start_sampling
      then (record counted { start_commands = increment stats.start_commands }, start s)
      else if cmd == cmd_stop_sampling
      then (record counted { stop_commands = increment stats.stop_commands }, stop s)
      else (record counted { unknown_commands = increment stats.unknown_commands }, s)

  -- The packets that reach the sink, one after the other.
  unfoldable pub handle_all : List (List ℕ) → CommandStats × K → CommandStats × K
  unfolding cmd_handler_fn
  handle_all [] st = st
  handle_all (data_ ∷ packets) st = handle_all packets (cmd_handler_fn data_ st)
