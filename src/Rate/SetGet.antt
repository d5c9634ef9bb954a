-- ===== src/Rate/SetGet.antt =====
-- The rate that the shell sets is the rate that it reads.
use zephyr_io.Prelude.{
  ℕ, ◌^◌, ◌≡◌, ◌≤◌, ◌<◌, ◌∙◌, ◌⊎◌, refl, ap, sym, none, some, List, [], ◌∷◌, true, false, ℤ, pos,
  neg, einval, arith, length, take, ltb, ◌||◌,
}
use zephyr_io.World.{Ptr, Observable, World}
use zephyr_io.Kernel.{Kernel, Program, Lawful}
use zephyr_io.Core.Drain.{update_self}
use zephyr_io.Observable.{
  weave_observable_validate, weave_observable_set_unchecked, weave_observable_get_unchecked,
}
use zephyr_io.Observable.Notified.{Spares}
use zephyr_io.Observable.RoundTrip.{get-set}
use zephyr_io.Table.Value.{unsigned}
use zephyr_io.Routing.Protocol.{le_bytes}
use zephyr_io.Shell.Text.{Text, decimal}
use zephyr_io.Shell.Decimal.{strtoul-decimal10}
use zephyr_io.Shell.TableCommands.{reply}
use zephyr_io.Shell.WriteRead.{reply-zero, unsigned-take}
use zephyr_io.Image.Macros.{ObservableLayout, weave_observable_define}
use zephyr_io.Image.Boot.{Boots, boots-IsReady, boots-limit}
use zephyr_io.Rate.Sample.{
  settings_size, sensor_settings, with_rate, cmd_settings_set, cmd_settings_get,
}

unsigned-le_bytes4 : (n : ℕ) → n < 2 ^ 32 → unsigned 4 (le_bytes 4 n) ≡ n
unfolding unsigned le_bytes
unsigned-le_bytes4 n lt = omega arith

module _ {K : Type 0} {k : Kernel K} (L : Lawful k) (p : Program K) (obs buf ops : Ptr)
    (at_ : ObservableLayout) (w : World K) (b : Boots L p obs (sensor_settings at_ ops) w)
    (spares : Spares L p obs at_.value) where
  abbrev stored_rate : ℕ → World K
  stored_rate rate = with_rate k p obs buf rate w

  no_validator :
      (rate : ℕ)
      → weave_observable_validate k p (some obs) (some buf) (with_rate k p obs buf rate w)
        ≡ (pos 0, with_rate k p obs buf rate w)
  unfolding weave_observable_validate sensor_settings weave_observable_define
  no_validator rate =
      let v = with_rate k p obs buf rate w in
      ap
        (λ (o : Observable). elim o.validator [
          | none ↦ (pos 0, v)
          | some f ↦ p.call_validator f obs (some buf) (p.sink_at o.owner_sink).user_data v
        ])
        b.observable_is

  got :
      (rate : ℕ)
      → rate < 2 ^ 32
      → let v =
          (weave_observable_set_unchecked k p
            (some obs)
            (some buf)
            (with_rate k p obs buf rate w)).1 in
        let (ret, v2) = weave_observable_get_unchecked k p (some obs) (some buf) v in
        (ret ≡ pos 0) × (unsigned 4 (v2.memory buf) ≡ rate)
  unfolding sensor_settings le_bytes
  got rate lt =
      let v = with_rate k p obs buf rate w in
      let bv : Boots L p obs (sensor_settings at_ ops) v = record {
        observable_is = b.observable_is;
        count_is = b.count_is;
        limit_is = b.limit_is;
      } in
      let written : v.memory buf ≡ le_bytes 4 rate = update_self w.memory buf (le_bytes 4 rate) in
      let size : (v.observables obs).size ≡ 4 =
        unfold weave_observable_define in ap (λ (o : Observable). o.size) b.observable_is in
      let x =
        get-set L p obs at_.value buf v (boots-IsReady L p obs at_ ops 4 none none none none v bv)
          (boots-limit L p obs at_ ops 4 none none none none v bv) spares buf (no_validator rate)
          (ap length written ∙ sym size) in
      let v1 = (weave_observable_set_unchecked k p (some obs) (some buf) v).1 in
      let bs = (weave_observable_get_unchecked k p (some obs) (some buf) v1).1.memory buf in
      (
        x.0,
        sym (unsigned-take 4 bs)
            ∙ ap (λ i. unsigned 4 (take i bs)) (sym size)
            ∙ ap (unsigned 4) (x.1 ∙ written)
            ∙ unsigned-le_bytes4 rate lt,
      )

  set_eq :
      (name : Text) (rate : ℕ)
      → 100 ≤ rate
      → rate ≤ 10000
      → cmd_settings_set k p obs buf (name ∷ decimal rate ∷ []) w
        ≡ reply
            (λ n v. decimal rate)
            (weave_observable_set_unchecked k p (some obs) (some buf) (stored_rate rate))
  unfolding cmd_settings_set
  set_eq name rate h1 h2 =
      let inside : (ltb rate 100 || ltb 10000 rate) ≡ false = ground arith in
      rw (strtoul-decimal10 rate (omega arith), inside) refl

  set_refused :
      (name : Text) (rate : ℕ) (v : World K)
      → rate < 2 ^ 32
      → rate < 100 ⊎ 10000 < rate
      → cmd_settings_set k p obs buf (name ∷ decimal rate ∷ []) v ≡ (neg einval, [], v)
  unfolding cmd_settings_set
  set_refused name rate v lt h =
      let outside : (ltb rate 100 || ltb 10000 rate) ≡ true = ground arith in
      rw (strtoul-decimal10 rate lt, outside) refl

  get_eq :
      (argv : List Text) (v : World K)
      → cmd_settings_get k p obs buf argv v
        ≡ reply
            (λ n v2. decimal (unsigned settings_size (v2.memory buf)))
            (weave_observable_get_unchecked k p (some obs) (some buf) v)
  unfolding cmd_settings_get
  get_eq argv v = refl

  reply-world : (print : ℕ → World K → Text) (x : ℤ × World K) → (reply print x).2 ≡ x.1
  reply-world print x = ground arith

  -- At boot, where every handler, ref and unref that runs while the observable notifies leaves its
  -- bytes, its struct and its semaphore as it found them, as a read of it does: a rate from 100 to
  -- 10000 is set by the command, in decimal digits. A rate outside of the bounds after it is
  -- refused with -EINVAL, and the world is unchanged; the command that gets the rate then returns
  -- 0 and prints the digits of the first.
  pub settings_get-settings_set :
      (name : Text) (argv : List Text) (rate bad : ℕ)
      → 100 ≤ rate
      → rate ≤ 10000
      → bad < 2 ^ 32
      → bad < 100 ⊎ 10000 < bad
      → let v = (cmd_settings_set k p obs buf (name ∷ decimal rate ∷ []) w).2 in
        let (ret, printed, v1) = cmd_settings_set k p obs buf (name ∷ decimal bad ∷ []) v in
        let (ret2, printed2, v2) = cmd_settings_get k p obs buf argv v1 in
        (ret ≡ neg einval) × (printed ≡ []) × (v1 ≡ v) × (ret2 ≡ pos 0) × (printed2 ≡ decimal rate)
  settings_get-settings_set name argv rate bad h1 h2 lt out =
      let set = weave_observable_set_unchecked k p (some obs) (some buf) (stored_rate rate) in
      let get = weave_observable_get_unchecked k p (some obs) (some buf) set.1 in
      let (get0, value) = got rate (omega arith) in
      let world =
        ap (λ (x : ℤ × Text × World K). x.2) (set_eq name rate h1 h2)
        ∙ reply-world (λ n v. decimal rate) set in
      let read =
        ap (λ v. cmd_settings_get k p obs buf argv v) world
        ∙ get_eq argv set.1
        ∙ reply-zero (λ n v2. decimal (unsigned settings_size (v2.memory buf))) get get0 in
      let v = (cmd_settings_set k p obs buf (name ∷ decimal rate ∷ []) w).2 in
      rw (set_refused name bad v lt out) (
        refl,
        refl,
        refl,
        ap (λ (x : ℤ × Text × World K). x.0) read,
        ap (λ (x : ℤ × Text × World K). x.1) read ∙ ap decimal value,
      )
