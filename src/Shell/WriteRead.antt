-- ===== src/Shell/WriteRead.antt =====
-- The shell of the settings table: reg_write and then reg_read.
use zephyr_io.Prelude.{
  ℕ, zero, suc, ◌+◌, ◌-◌, ◌*◌, ◌%◌, ◌^◌, ◌≡◌, ◌≤◌, ◌<◌, ◌∙◌, refl, ap, sym, some, List, [], ◌∷◌,
  ◌++◌, true, ℤ, pos, arith, length, take, replicate, length-append, take-append_exact, take-all,
}
use zephyr_io.World.{Ptr, World}
use zephyr_io.Kernel.{Kernel, Program, Lawful}
use zephyr_io.Observable.Store.{IsReady}
use zephyr_io.Observable.Notified.{Spares}
use zephyr_io.Table.Value.{
  RegisterType, SettingValue, SettingReg, register_type_size, unsigned, settings_reg_validate_range,
  st_u8, st_u16, st_u32, st_u64, st_i8, st_i16, st_i32, st_i64, st_f32, st_f64, st_bool,
  st_type_count,
}
use zephyr_io.Table.Areas.{
  SettingArea, SettingRegCtx, setting_area_get_reg_ctx, settings_find_area, settings_find_reg,
}
use zephyr_io.Table.Access.{Settings}
use zephyr_io.Table.Api.{validate_proposed, settings_reg_get, settings_reg_set}
use zephyr_io.Table.SetGet.{reg_get-reg_set}
use zephyr_io.Shell.Text.{Text, strtoul, decimal, signed_decimal}
use zephyr_io.Shell.Hex.{AllBytes}
use zephyr_io.Shell.Values.{Floats, print_value, parse_value, IsShort}
use zephyr_io.Shell.ReadBack.{parse_value-print_value}
use zephyr_io.Shell.TableCommands.{
  reply, with_reg, read_reg, write_parsed, cmd_settings_reg_read, cmd_settings_reg_write,
}

pub unsigned-take : (n : ℕ) (bs : List ℕ) → unsigned n (take n bs) ≡ unsigned n bs
unfolding unsigned
unsigned-take zero bs = refl
unsigned-take (suc n) [] = refl
unsigned-take (suc n) (b ∷ bs) = ap (λ u. b + 256 * u) (unsigned-take n bs)

unsigned-same : (n : ℕ) (bs cs : List ℕ) → take n bs ≡ take n cs → unsigned n bs ≡ unsigned n cs
unsigned-same n bs cs h = sym (unsigned-take n bs) ∙ ap (unsigned n) h ∙ unsigned-take n cs

-- Only the bytes of the type are printed.
print_value-same :
    (fl : Floats) (type : RegisterType) (bs cs : SettingValue)
    → IsShort type
    → take (register_type_size type) bs ≡ take (register_type_size type) cs
    → print_value fl type bs ≡ print_value fl type cs
unfolding print_value register_type_size
print_value-same fl st_u8 bs cs s h = ap decimal (unsigned-same 1 bs cs h)
print_value-same fl st_u16 bs cs s h = ap decimal (unsigned-same 2 bs cs h)
print_value-same fl st_u32 bs cs s h = ap decimal (unsigned-same 4 bs cs h)
print_value-same fl st_i8 bs cs s h = ap (signed_decimal (2 ^ 7)) (unsigned-same 1 bs cs h)
print_value-same fl st_i16 bs cs s h = ap (signed_decimal (2 ^ 15)) (unsigned-same 2 bs cs h)
print_value-same fl st_i32 bs cs s h = ap (signed_decimal (2 ^ 31)) (unsigned-same 4 bs cs h)
print_value-same fl st_u64 bs cs s h = elim s [ ]
print_value-same fl st_i64 bs cs s h = elim s [ ]
print_value-same fl st_f32 bs cs s h = elim s [ ]
print_value-same fl st_f64 bs cs s h = elim s [ ]
print_value-same fl st_bool bs cs s h = elim s [ ]
print_value-same fl st_type_count bs cs s h = elim s [ ]

-- A value of so many bytes in the union.
abbrev pub in_union_of : RegisterType → SettingValue → SettingValue
in_union_of type val = val ++ replicate (8 - register_type_size type) 0

pub reply-zero :
    {K : Type 0} (print : ℕ → World K → Text) (x : ℤ × World K)
    → x.0 ≡ pos 0
    → reply print x ≡ (pos 0, print 0 x.1, x.1)
reply-zero print x h = ap (λ r. reply print (r, x.1)) h

module _ {K : Type 0} {k : Kernel K} (L : Lawful k) (p : Program K) (t : Settings K) (fl : Floats)
    (area : SettingArea) (ctx : SettingRegCtx) (reg : SettingReg) (cell buf : Ptr)
    (is_reg_area : setting_area_get_reg_ctx t.reg_read t.ctx_at area ≡ some ctx)
    (spares : Spares L p ctx.observable cell) (name addr_text : Text)
    (found_area : settings_find_area t.areas (strtoul addr_text 0 % 2 ^ 16) ≡ some area)
    (found_reg : settings_find_reg t.reg_read t.ctx_at t.areas (strtoul addr_text 0 % 2 ^ 16)
      ≡ some reg) where
  write_eq :
      (text : Text) (value : SettingValue) (w : World K)
      → parse_value fl reg.type text ≡ some value
      → cmd_settings_reg_write k p t fl true buf (name ∷ addr_text ∷ text ∷ []) w
        ≡ reply
            (λ n v. b'O' ∷ b'K' ∷ [])
            (settings_reg_set k p t true (some area) (some reg) value w)
  unfolding cmd_settings_reg_write
  write_eq text value w h =
      let act = λ (a : SettingArea) (r : SettingReg).
        write_parsed k p t fl true buf a r (parse_value fl r.type text) w in
      let addr = strtoul addr_text 0 % 2 ^ 16 in
      ap
        (λ a.
          with_reg k p t fl true buf a (settings_find_reg t.reg_read t.ctx_at t.areas addr) act w)
        found_area
      ∙ ap (λ r. with_reg k p t fl true buf (some area) r act w) found_reg
      ∙ ap (λ v. write_parsed k p t fl true buf area reg v w) h

  read_eq :
      (w : World K)
      → cmd_settings_reg_read k p t fl true buf (name ∷ addr_text ∷ []) w
        ≡ reply
            (λ n v. print_value fl reg.type (v.memory buf))
            (settings_reg_get k p t true (some area) (some reg) (some buf) w)
  unfolding cmd_settings_reg_read
  read_eq w =
      let act = λ (a : SettingArea) (r : SettingReg). read_reg k p t fl true buf a r w in
      let addr = strtoul addr_text 0 % 2 ^ 16 in
      ap
        (λ a.
          with_reg k p t fl true buf a (settings_find_reg t.reg_read t.ctx_at t.areas addr) act w)
        found_area
      ∙ ap (λ r. with_reg k p t fl true buf (some area) r act w) found_reg

  -- Round trip through the shell: a register of a register area, of an integer type of at most 32
  -- bits, that can be written and read and that starts inside the bytes of the observable is
  -- written with the text of a value in its range, as reg_read prints it; the validation accepts
  -- the value and leaves the observable free. reg_write returns 0 and prints "OK", and if every
  -- handler, ref and unref that runs while the observable notifies leaves its bytes, its struct
  -- and its semaphore as it found them, as a read of it does, a reg_read after it returns 0 and
  -- prints that text.
  pub reg_read-reg_write :
      (val : SettingValue) (w w1 : World K)
      → IsShort reg.type
      → length val ≡ register_type_size reg.type
      → AllBytes val
      → reg.writable ≡ true
      → reg.readable ≡ true
      → settings_reg_validate_range reg (in_union_of reg.type val) ≡ true
      → validate_proposed k p t area ctx.observable reg (in_union_of reg.type val) w ≡ (pos 0, w1)
      → IsReady L p ctx.observable cell w1
      → 0 < (L.view w1.kernel).limit (w1.observables ctx.observable).sem
      → reg.offset ≤ length (w1.memory cell)
      → let text = print_value fl reg.type val in
        let (ret, printed, v) =
          cmd_settings_reg_write k p t fl true buf (name ∷ addr_text ∷ text ∷ []) w in
        let (ret2, printed2, v2) =
          cmd_settings_reg_read k p t fl true buf (name ∷ addr_text ∷ []) v in
        (ret ≡ pos 0) × (printed ≡ b'O' ∷ b'K' ∷ []) × (ret2 ≡ pos 0) × (printed2 ≡ text)
  reg_read-reg_write val w w1 short len all h1 h2 h3 h5 r limit h6 =
      let value = in_union_of reg.type val in
      let n = register_type_size reg.type in
      let text = print_value fl reg.type val in
      let fits : n ≤ length value = omega (arith, length-append val (replicate (8 - n) 0)) in
      let (set0, get0, bytes) =
        reg_get-reg_set L p t area ctx reg cell is_reg_area spares value buf w w1 h1 h2 h3 fits h5 r
          limit h6 in
      let set = settings_reg_set k p t true (some area) (some reg) value w in
      let wrote =
        write_eq text value w (parse_value-print_value fl reg.type val short len all)
        ∙ reply-zero (λ n v. b'O' ∷ b'K' ∷ []) set set0 in
      let get = settings_reg_get k p t true (some area) (some reg) (some buf) set.1 in
      let read =
        read_eq set.1 ∙ reply-zero (λ n v. print_value fl reg.type (v.memory buf)) get get0 in
      let same : take n (get.1.memory buf) ≡ take n val =
        bytes
        ∙ take-append_exact n val (replicate (8 - n) 0) (sym len)
        ∙ sym (take-all val)
        ∙ ap (λ i. take i val) len in
      rw (wrote, read) (refl, refl, refl, print_value-same fl reg.type _ val short same)
