-- ===== src/Main/Start.antt =====
-- The rest of src/main.rs: the basic information from the identity, and the way of `main` from the
-- configuration to its exit. What the file system, the thread and the events give is a parameter.
pub mod Ok
use mathlib.Core.Path.{ap}
use pv_matter.Common.{
  ℕ, ◌≤◌, ◌≡◌, ◌∙◌, arith, ◌↔◌, refl, Bool, true, false, List, [], ◌∷◌, ◌++◌, Option, none, some,
  Result, ok, err, get_or, map_opt, ◌>>=◌, All,
}
use pv_matter.Text.{Text, codes}
use pv_matter.Number.{u64_max, to_string, parse_unsigned}
use pv_matter.Number.Laws.{parse_unsigned-to_string}
use pv_matter.Domain.{State, default_state, apply}
use pv_matter.Domain.Info.{InverterInfo}
use pv_matter.Config.{Config, ConfigError, Surroundings, from_env}
use pv_matter.Main.{
  Wait, bootstrap, Event, shutdown_signal, matter_exited, ingest_ended, received, steady,
}

-- The fields that `basic_info` sets. The test ids are rs-matter's, and the version is cargo's.
pub record BasicInfo : Type 0 where
  pub vid : ℕ
  pub pid : ℕ
  pub device_name : Text
  pub product_name : Text
  pub vendor_name : Text
  pub serial_no : Text
  pub sw_ver_str : Text

unfoldable pub basic_info : ℕ → ℕ → Text → Option InverterInfo → BasicInfo
unfolding to_string
basic_info test_vid test_pid version info = record {
  vid = test_vid;
  pid = test_pid;
  device_name = codes "PV Inverter";
  product_name = get_or (info >>= λ i. i.device_model) (codes "PV Inverter");
  vendor_name = codes "pv-matter (unofficial)";
  serial_no = get_or (map_opt to_string (info >>= λ i. i.serial)) [];
  sw_ver_str = version;
}

abbrev pub FitsU64 : Option ℕ → Type 0
FitsU64 none = Unit
FitsU64 (some n) = n ≤ u64_max

serial-parse_unsigned :
    (serial : Option ℕ)
    → FitsU64 serial
    → parse_unsigned u64_max (get_or (map_opt to_string serial) []) ≡ serial
serial-parse_unsigned none h = unfold parse_unsigned in refl
serial-parse_unsigned (some n) h = parse_unsigned-to_string u64_max n h

-- For a serial that fits 64 bits: the serial number of the basic information reads back as the serial of the
-- identity, and as none exactly if the identity or its serial is missing.
pub basic_info-serial :
    (test_vid test_pid : ℕ) (version : Text) (info : Option InverterInfo)
    → FitsU64 (info >>= λ i. i.serial)
    → parse_unsigned u64_max (basic_info test_vid test_pid version info).serial_no
      ≡ (info >>= λ i. i.serial)
unfolding basic_info
basic_info-serial test_vid test_pid version info h =
    serial-parse_unsigned (info >>= λ i. i.serial) h

pub data MainError : Type 0 where
  config : ConfigError → MainError
  storage_dir : MainError
  spawning : MainError
  component_failed : MainError

-- Whether the program still runs, and else what `main` returned, or that it panicked.
pub data Exit : Type 0 where
  running : Exit
  panicked : Exit
  exited : Result (Unit {0}) MainError → Exit

unfoldable pub exit_of : Option Bool → Exit
exit_of none = running
exit_of (some false) = exited (ok tt)
exit_of (some true) = exited (err component_failed)

-- Behind the bootstrap: the start of the thread and the steady loop.
spawned_main : Bool → State → List Event → Exit
unfolding exit_of
spawned_main false s events = exited (err spawning)
spawned_main true s events = exit_of (steady s events).fatal

-- The bootstrap loop waits for a message as long as it is not over.
booted_main : Bool → State → Bool → List Event → Exit
unfolding spawned_main
booted_main false s spawned events = running
booted_main true s spawned events = spawned_main spawned s events

-- `Instant::now() + cfg.bootstrap_timeout` panics where there is no such instant.
timed_main : Bool → Bool → List Wait → List Event → Exit
unfolding booted_main
timed_main false spawned waits events = panicked
timed_main true spawned waits events =
    let b = bootstrap default_state waits in booted_main b.over b.state spawned events

stored_main : Bool → Bool → Bool → List Wait → List Event → Exit
unfolding timed_main
stored_main false fits spawned waits events = exited (err storage_dir)
stored_main true fits spawned waits events = timed_main fits spawned waits events

configured_main :
    (ℕ → Bool) → Result Config ConfigError → Bool → Bool → List Wait → List Event → Exit
unfolding stored_main
configured_main has_instant (err e) created spawned waits events = exited (err (config e))
configured_main has_instant (ok cfg) created spawned waits events =
    stored_main created (has_instant cfg.bootstrap_timeout) spawned waits events

-- `main`: `has_instant` says whether the clock has an instant that many seconds ahead, `created` whether the
-- storage directory is there, `spawned` whether the thread started.
unfoldable pub main : (ℕ → Bool) → Surroundings → Bool → Bool → List Wait → List Event → Exit
unfolding configured_main
main has_instant sur created spawned waits events =
    configured_main has_instant (from_env sur) created spawned waits events

-- Behind a good start, `main` is its two loops.
pub main-exit_of :
    (has_instant : ℕ → Bool) (sur : Surroundings) {cfg : Config} (waits : List Wait)
    (events : List Event)
    → from_env sur ≡ ok cfg
    → has_instant cfg.bootstrap_timeout ≡ true
    → (bootstrap default_state waits).over ≡ true
    → main has_instant sur true true waits events
      ≡ exit_of (steady (bootstrap default_state waits).state events).fatal
unfolding main configured_main stored_main timed_main booted_main spawned_main
main-exit_of has_instant sur waits events h fits over =
    ap (λ r. configured_main has_instant r true true waits events) h
    ∙ ap (λ f. timed_main f true waits events) fits
    ∙ ap (λ o. booted_main o (bootstrap default_state waits).state true events) over

not_over : (over : Bool) (s : State) → booted_main over s true [] ≡ running
unfolding booted_main spawned_main exit_of steady
not_over false s = refl
not_over true s = refl

-- Before the first event `main` runs, be the bootstrap over or not.
pub main-running :
    (has_instant : ℕ → Bool) (sur : Surroundings) {cfg : Config} (waits : List Wait)
    → from_env sur ≡ ok cfg
    → has_instant cfg.bootstrap_timeout ≡ true
    → main has_instant sur true true waits [] ≡ running
unfolding main configured_main stored_main timed_main
main-running has_instant sur waits h fits =
    ap (λ r. configured_main has_instant r true true waits []) h
    ∙ ap (λ f. timed_main f true waits []) fits
    ∙ not_over (bootstrap default_state waits).over (bootstrap default_state waits).state
