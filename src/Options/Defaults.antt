-- ===== src/Options/Defaults.antt =====
-- options.go: what `newOptions` makes of the options that it is given.
use Prim.Native.String.{String}
use text.Mathlib.Text.{◌==◌ as str_eq}
use text.Mathlib.TextEquality.{eq_iff}
use gev.Base.{
  ℕ, ◌≡◌, ◌≢◌, refl, false, List, Option, none, some, arith, if◌then◌else◌, ℤ, pos, ◌⊎◌, inl, inr,
}
use gev.Options.{Options, is_zero, zero_options, apply_options, new_options, or_default}

module _ {P S : Type 0} where
  -- Whatever options are given, the result has a network, an address, a protocol, a strategy, a tick and a
  -- wheel size that are set; a protocol or strategy that the options set stands, and so does a network,
  -- an address, a tick or a wheel size that is not empty or 0; and the number of loops, the flag for the
  -- port, the idle time and the address for metrics are as the options left them.
  pub new_options_lem :
      (d : P) (rr : S) (os : List (Options P S → Options P S))
      → let given = apply_options os zero_options in
        let o = new_options d rr os in
        (o.network ≢ "")
        × (o.address ≢ "")
        × (is_zero o.tick ≡ false)
        × (is_zero o.wheel_size ≡ false)
        × ((p : P) × (o.protocol ≡ some p) × ((given.protocol ≡ none) ⊎ (given.protocol ≡ some p)))
        × ((s : S) × (o.strategy ≡ some s) × ((given.strategy ≡ none) ⊎ (given.strategy ≡ some s)))
        × (given.network ≢ "" → o.network ≡ given.network)
        × (given.address ≢ "" → o.address ≡ given.address)
        × (is_zero given.tick ≡ false → o.tick ≡ given.tick)
        × (is_zero given.wheel_size ≡ false → o.wheel_size ≡ given.wheel_size)
        × (o.num_loops ≡ given.num_loops)
        × (o.reuse_port ≡ given.reuse_port)
        × (o.idle_time ≡ given.idle_time)
        × (o.metrics_path ≡ given.metrics_path)
        × (o.metrics_address ≡ given.metrics_address)
  unfolding new_options
  new_options_lem d rr os =
      let given = apply_options os zero_options in
      (
        text_set given.network "tcp" tcp_set,
        text_set given.address ":1388" port_set,
        tick_set given.tick 1000000 refl,
        tick_set given.wheel_size 1000 refl,
        default_set d given.protocol,
        default_set rr given.strategy,
        text_kept given.network "tcp",
        text_kept given.address ":1388",
        tick_kept given.tick 1000000,
        tick_kept given.wheel_size 1000,
        refl,
        refl,
        refl,
        refl,
        refl,
      )
    where
      tcp_set : str_eq "tcp" "" ≡ false
      tcp_set = refl

      port_set : str_eq ":1388" "" ≡ false
      port_set = refl

      text_set :
          (t default : String)
          → str_eq default "" ≡ false
          → (if str_eq t "" then default else t) ≢ ""
      text_set t default h = ground (arith, eq_iff t "", eq_iff default "")

      text_kept : (t default : String) → t ≢ "" → (if str_eq t "" then default else t) ≡ t
      text_kept t default h = ground (arith, eq_iff t "")

      tick_set :
          (t : ℤ) (n : ℕ)
          → is_zero (pos n) ≡ false
          → is_zero (if is_zero t then pos n else t) ≡ false
      tick_set t n h = ground arith

      tick_kept : (t : ℤ) (n : ℕ) → is_zero t ≡ false → (if is_zero t then pos n else t) ≡ t
      tick_kept t n h = ground arith

      default_set :
          {A : Type 0} (d : A) (o : Option A)
          → (a : A) × (or_default d o ≡ some a) × ((o ≡ none) ⊎ (o ≡ some a))
      default_set d none = (d, refl, inl refl)
      default_set d (some a) = (a, refl, inr refl)
