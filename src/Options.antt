-- ===== src/Options.antt =====
-- options.go: the options of a server, and everyscheduler.go and connection_options.go. An `Option` of
-- the source is a function that changes the options; `P` and `S` stand for protocols and strategies.
pub mod Defaults
use Prim.Native.String.{String}
use text.Mathlib.Text.{◌==◌ as str_eq}
use gev.Base.{
  ℕ, ◌+◌, Bool, true, false, List, [], ◌∷◌, Option, none, some, ◌==◌, if◌then◌else◌, ℤ, pos, negsuc,
}

pub record Options (P S : Type 0) : Type 0 where
  pub network : String
  pub address : String
  pub num_loops : ℤ
  pub reuse_port : Bool
  -- Nanoseconds, as all durations.
  pub idle_time : ℤ
  pub protocol : Option P
  pub strategy : Option S
  pub tick : ℤ
  pub wheel_size : ℤ
  pub metrics_path : String
  pub metrics_address : String

abbrev pub is_zero : ℤ → Bool
is_zero (pos n) = n == 0
is_zero (negsuc n) = false

abbrev pub or_default : {A : Type 0} → A → Option A → Option A
or_default d none = some d
or_default d (some a) = some a

module _ {P S : Type 0} where
  abbrev pub zero_options : Options P S
  zero_options = record {
    network = "";
    address = "";
    num_loops = pos 0;
    reuse_port = false;
    idle_time = pos 0;
    protocol = none;
    strategy = none;
    tick = pos 0;
    wheel_size = pos 0;
    metrics_path = "";
    metrics_address = "";
  }

  unfoldable pub apply_options : List (Options P S → Options P S) → Options P S → Options P S
  apply_options [] opts = opts
  apply_options (o ∷ os) opts = apply_options os (o opts)

  -- The defaults of `newOptions`, after the options were applied.
  unfoldable pub fill_defaults : P → S → Options P S → Options P S
  fill_defaults default_protocol round_robin o = record o {
    network = if str_eq o.network "" then "tcp" else o.network;
    address = if str_eq o.address "" then ":1388" else o.address;
    protocol = or_default default_protocol o.protocol;
    strategy = or_default round_robin o.strategy;
    tick = if is_zero o.tick then pos 1000000 else o.tick;
    wheel_size = if is_zero o.wheel_size then pos 1000 else o.wheel_size;
  }

  unfoldable pub new_options : P → S → List (Options P S → Options P S) → Options P S
  unfolding fill_defaults
  new_options default_protocol round_robin opt =
      fill_defaults default_protocol round_robin (apply_options opt zero_options)

  abbrev pub with_reuse_port : Bool → Options P S → Options P S
  with_reuse_port b o = record o { reuse_port = b }

  abbrev pub with_network : String → Options P S → Options P S
  with_network n o = record o { network = n }

  abbrev pub with_address : String → Options P S → Options P S
  with_address a o = record o { address = a }

  abbrev pub with_num_loops : ℤ → Options P S → Options P S
  with_num_loops n o = record o { num_loops = n }

  abbrev pub with_custom_protocol : Option P → Options P S → Options P S
  with_custom_protocol p o = record o { protocol = p }

  abbrev pub with_idle_time : ℤ → Options P S → Options P S
  with_idle_time t o = record o { idle_time = t }

  abbrev pub with_load_balance : Option S → Options P S → Options P S
  with_load_balance s o = record o { strategy = s }

  abbrev pub with_metrics_server : String → String → Options P S → Options P S
  with_metrics_server path address o = record o { metrics_path = path; metrics_address = address }

-- `SendInLoop` of connection_options.go: the last one given stands.
abbrev pub send_in_loop_option : {F : Type 0} → F → Option F → Option F
send_in_loop_option f o = some f

-- `Next` of the scheduler of `RunEvery`: `prev.Add(s.Interval)`.
abbrev pub every_scheduler_next : ℕ → ℕ → ℕ
every_scheduler_next interval prev = prev + interval
