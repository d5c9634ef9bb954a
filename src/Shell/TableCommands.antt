-- ===== src/Shell/TableCommands.antt =====
-- The commands of settings_shell.c. A command has its arguments with its own name first, and
-- returns its result, what it prints when it succeeds, and the world.
use zephyr_io.Prelude.{
  ℕ, ◌-◌, ◌%◌, ◌^◌, Option, none, some, List, [], ◌∷◌, ◌++◌, Bool, ℤ, pos, negsuc, neg, is_neg,
  einval, enoent, length, take, drop, get_or, ltb, map, if◌then◌else◌,
}
use zephyr_io.World.{Ptr, World, update}
use zephyr_io.Kernel.{Kernel, Program}
use zephyr_io.Table.Value.{SettingReg, SettingValue}
use zephyr_io.Table.Areas.{SettingArea, settings_find_area, settings_find_reg}
use zephyr_io.Table.Access.{Settings}
use zephyr_io.Table.Api.{
  settings_read, settings_write, settings_reg_get, settings_reg_set, settings_reset_defaults,
}
use zephyr_io.Shell.Text.{Text, strtoul, hex_u16, hex_bytes}
use zephyr_io.Shell.Values.{Floats, print_value, parse_value}

-- An argument, which the count has been checked for.
abbrev pub arg : List Text → ℕ → Text
arg argv i = get_or argv i []

-- The number of bytes in a result that is not negative.
abbrev pub count : ℤ → ℕ
count (pos n) = n
count (negsuc n) = 0

-- A result with what is printed when it is not negative.
abbrev pub reply : {K : Type 0} → (ℕ → World K → Text) → ℤ × World K → ℤ × Text × World K
reply print (ret, w) = if is_neg ret then (ret, [], w) else (pos 0, print (count ret) w, w)

-- `buf` is the address of the buffer on the stack, with what it happens to hold; `initialized` is
-- settings_initialized.
module _ {K : Type 0} (k : Kernel K) (p : Program K) (t : Settings K) (fl : Floats)
    (initialized : Bool) (buf : Ptr) where
  abbrev put_bytes : List ℕ → World K → World K
  put_bytes bs w = record w { memory = update w.memory buf bs }

  unfoldable pub cmd_settings_read : List Text → World K → ℤ × Text × World K
  unfolding strtoul settings_read
  cmd_settings_read argv w =
      let addr = strtoul (arg argv 1) 0 % 2 ^ 16 in
      let len = strtoul (arg argv 2) 0 in
      let done =
        reply (λ n v. hex_bytes (take n (v.memory buf)))
          (settings_read k p t initialized addr (some buf) len w) in
      if ltb (length argv) 3
      then (neg einval, [], w)
      else if ltb 64 len
      then (neg einval, [], w)
      else done

  -- The bytes of the arguments from the third on.
  abbrev argument_bytes : List Text → List ℕ
  argument_bytes argv = map (λ text. strtoul text 0 % 256) (drop 2 argv)

  -- It prints the address behind "Wrote %d bytes to 0x".
  unfoldable pub cmd_settings_write : List Text → World K → ℤ × Text × World K
  unfolding strtoul hex_u16 settings_write
  cmd_settings_write argv w =
      let addr = strtoul (arg argv 1) 0 % 2 ^ 16 in
      let len = length argv - 2 in
      let bs = argument_bytes argv ++ drop len (w.memory buf) in
      let done =
        reply (λ n v. hex_u16 addr)
          (settings_write k p t initialized addr (some buf) len (put_bytes bs w)) in
      if ltb (length argv) 3
      then (neg einval, [], w)
      else if ltb 64 len
      then (neg einval, [], w)
      else done

  -- What a command does with the area and the register at an address, or -ENOENT.
  unfoldable pub with_reg :
      Option SettingArea
      → Option SettingReg
      → (SettingArea → SettingReg → ℤ × Text × World K)
      → World K
      → ℤ × Text × World K
  with_reg none reg act w = (neg enoent, [], w)
  with_reg (some area) none act w = (neg enoent, [], w)
  with_reg (some area) (some reg) act w = act area reg

  -- A register has no name in the model; what is printed stands behind "name = ". `buf` is `val`.
  unfoldable pub read_reg : SettingArea → SettingReg → World K → ℤ × Text × World K
  unfolding settings_reg_get print_value
  read_reg area reg w =
      reply (λ n v. print_value fl reg.type (v.memory buf))
        (settings_reg_get k p t initialized (some area) (some reg) (some buf) w)

  unfoldable pub cmd_settings_reg_read : List Text → World K → ℤ × Text × World K
  unfolding strtoul settings_find_area settings_find_reg with_reg read_reg
  cmd_settings_reg_read argv w =
      let addr = strtoul (arg argv 1) 0 % 2 ^ 16 in
      let done =
        with_reg (settings_find_area t.areas addr)
          (settings_find_reg t.reg_read t.ctx_at t.areas addr) (λ area reg. read_reg area reg w)
          w in
      if ltb (length argv) 2 then (neg einval, [], w) else done

  unfoldable pub write_parsed :
      SettingArea → SettingReg → Option SettingValue → World K → ℤ × Text × World K
  unfolding settings_reg_set
  write_parsed area reg none w = (neg einval, [], w)
  write_parsed area reg (some val) w =
      reply (λ n v. b'O' ∷ b'K' ∷ [])
        (settings_reg_set k p t initialized (some area) (some reg) val w)

  unfoldable pub cmd_settings_reg_write : List Text → World K → ℤ × Text × World K
  unfolding strtoul settings_find_area settings_find_reg with_reg write_parsed parse_value
  cmd_settings_reg_write argv w =
      let addr = strtoul (arg argv 1) 0 % 2 ^ 16 in
      let done =
        with_reg (settings_find_area t.areas addr)
          (settings_find_reg t.reg_read t.ctx_at t.areas addr)
          (λ area reg. write_parsed area reg (parse_value fl reg.type (arg argv 2)) w) w in
      if ltb (length argv) 3 then (neg einval, [], w) else done

  unfoldable pub cmd_settings_reset : List Text → World K → ℤ × Text × World K
  unfolding settings_reset_defaults
  cmd_settings_reset argv w = reply (λ n v. []) (settings_reset_defaults k p t initialized none w)
