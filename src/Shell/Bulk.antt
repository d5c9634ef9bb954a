-- ===== src/Shell/Bulk.antt =====
-- The bulk commands of the settings registers sample.
use zephyr_io.Prelude.{
  ℕ, ◌/◌, ◌%◌, ◌^◌, ◌≡◌, ◌≤◌, ◌∙◌, ap, List, [], ◌∷◌, ◌++◌, true, false, neg, ℤ, einval, arith,
  length, drop, ltb, ◌==◌, not, if◌then◌else◌, take-all,
}
use zephyr_io.World.{Ptr, World, copy_bytes}
use zephyr_io.Kernel.{Kernel, Program}
use zephyr_io.Groups.Registry.{SettingGroup}
use zephyr_io.Groups.Access.{settings_write}
use zephyr_io.Shell.Text.{Text, strtoul, hex_bytes, hex_u16}
use zephyr_io.Shell.Hex.{bytes_of_hex, AllBytes, bytes_of_hex-hex_bytes, length-hex_bytes}
use zephyr_io.Shell.TableCommands.{reply}
use zephyr_io.Shell.RegisterCommands.{store, cmd_reg_bulkw}

module _ {K : Type 0} (k : Kernel K) (p : Program K) (group_at : Ptr → SettingGroup) (temp : Ptr)
    (print_float print_double : ℕ → Text) (registry : List Ptr) (buf : Ptr) where
  -- The text of at most 16 bytes in hexadecimal, as bulkr prints it: bulkw with it is a
  -- settings_write of these bytes at the register, whatever the buffer held, and prints the
  -- register if the write succeeds.
  pub cmd_reg_bulkw-hex_bytes :
      (name reg_text : Text) (bs : List ℕ) (w : World K)
      → AllBytes bs
      → length bs ≤ 16
      → let reg = strtoul reg_text 0 % 2 ^ 16 in
        cmd_reg_bulkw k p group_at temp print_float print_double registry buf
          (name ∷ reg_text ∷ hex_bytes bs ∷ [])
          w
        ≡ reply
            (λ n v. hex_u16 reg)
            (settings_write k p group_at temp reg buf (length bs) registry (
              store k p group_at temp print_float print_double registry buf
                (bs ++ drop (length bs) (w.memory buf))
                w))
  unfolding cmd_reg_bulkw
  cmd_reg_bulkw-hex_bytes name reg_text bs w all le =
      let n = length (hex_bytes bs) in
      let even : (n % 2 == 0) ≡ true = ground (arith, length-hex_bytes bs) in
      let half : n / 2 ≡ length bs = omega (arith, length-hex_bytes bs) in
      let fits : ltb 16 (length bs) ≡ false = ground arith in
      ap (λ b. if not b then refused w else sized (n / 2)) even
      ∙ ap sized half
      ∙ ap (λ b. if b then refused w else written (length bs) (bytes_of_hex (hex_bytes bs))) fits
      ∙ ap (written (length bs)) (bytes_of_hex-hex_bytes bs all)
      ∙ ap (λ cs. sent (length bs) (cs ++ drop (length bs) (w.memory buf))) (take-all bs)
    where
      refused : World K → ℤ × Text × World K
      refused v = (neg einval, [], v)

      sent : ℕ → List ℕ → ℤ × Text × World K
      sent m cs =
          reply (λ i v. hex_u16 (strtoul reg_text 0 % 2 ^ 16))
            (settings_write k p group_at temp (strtoul reg_text 0 % 2 ^ 16) buf m registry
              (store k p group_at temp print_float print_double registry buf cs w))

      written : ℕ → List ℕ → ℤ × Text × World K
      written m cs = sent m (copy_bytes (w.memory buf) cs m)

      sized : ℕ → ℤ × Text × World K
      sized m = if ltb 16 m then refused w else written m (bytes_of_hex (hex_bytes bs))
