-- ===== src/Command.antt =====
-- cmd/tsdnsreflector/main.go: the program from its flags to its end. Each reload reads the file anew,
-- so a SIGHUP comes with what the file is then. The two HTTP servers are what they listen on.
pub mod Life
pub mod Signals
pub mod Follows
use tsdnsreflector.Prelude.{Text, Bool, Option, none, some, List, [], ◌∷◌, if◌then◌else◌}
use tsdnsreflector.Prelude.Result.{Result, ok, err}
use tsdnsreflector.Config.{Config}
use tsdnsreflector.Config.Load.{Decoder, LoadError, load}
use tsdnsreflector.Config.Runtime.{
  RuntimeConfig, ServerConfig, Flags, new_runtime_config, parse, setup_env_only_values,
  to_server_config,
}
use tsdnsreflector.KubeStore.{Client, Pod}
use tsdnsreflector.Tailscale.Auth.{Outside}
use tsdnsreflector.World.{World}
use tsdnsreflector.Dns.Server.{Server, ReloadError, reload_config}
use tsdnsreflector.Dns.Startup.{
  Address, Network, Program, Run, StartupError, new_server_with_runtime, start, stop,
}

pub data Signal : Type 0 where
  hangup : (file : Option Text) → Signal
  interrupt terminate : Signal

pub data ReloadFailure : Type 0 where
  not_loaded : LoadError → ReloadFailure
  not_applied : ReloadError → ReloadFailure

-- The metrics server listens on the port of all addresses.
pub record MetricsServer : Type 0 where
  pub address : Address
  pub metrics_path : Text

unfoldable pub start_metrics_server : ServerConfig → MetricsServer
start_metrics_server cfg = record { address = ([], cfg.http_port); metrics_path = cfg.metrics_path }

-- The signals that were sent are handled, and the program waits for more, has returned, or has
-- panicked in `Stop`.
pub data Outcome : Type 0 where
  waiting stopped : Run → Outcome
  panicked : Outcome

abbrev pub as_failure : Option ReloadError → Option ReloadFailure
as_failure none = none
as_failure (some e) = some (not_applied e)

abbrev pub stop_result : Option Run → Outcome
stop_result none = panicked
stop_result (some r) = stopped r

-- How `main` ends, or where it is.
pub data Exit : Type 0 where
  load_failed : LoadError → Exit
  validated : Exit
  not_created : StartupError → Exit
  ran : Option MetricsServer → Outcome → Exit

module _ (w : World) (d : Decoder) where
  abbrev pub reload_loaded : Server → Result LoadError Config → Server × Option ReloadFailure
  reload_loaded s (err e) = (s, some (not_loaded e))
  reload_loaded s (ok cfg) = let (s', e) = reload_config w cfg s in (s', as_failure e)

  -- `reloadConfiguration`
  unfoldable pub reload_configuration : Option Text → Server → Server × Option ReloadFailure
  reload_configuration file s = reload_loaded s (load w.parse_duration d file)

  abbrev pub reload_run : Option Text → Run → Run
  reload_run file r = record r {
    program = record r.program { server = (reload_configuration file r.program.server).0 };
  }

  -- The loop over the signals.
  unfoldable pub handle_signals : List Signal → Run → Outcome
  unfolding reload_configuration
  handle_signals [] r = waiting r
  handle_signals (hangup file ∷ signals) r = handle_signals signals (reload_run file r)
  handle_signals (interrupt ∷ signals) r = stop_result (stop r)
  handle_signals (terminate ∷ signals) r = stop_result (stop r)

  module _ (o : Outside) {K : Type 0} (client : Client K) (pod : Pod) (net : Network) where
    abbrev pub settings : Flags → RuntimeConfig
    settings flags = setup_env_only_values o.env (parse flags (new_runtime_config o.env))

    abbrev pub metrics_server : RuntimeConfig → Option MetricsServer
    metrics_server rc =
        if rc.metrics_enabled then some (start_metrics_server (to_server_config rc)) else none

    abbrev pub run_created : RuntimeConfig → List Signal → Result StartupError (K × Program) → Exit
    run_created rc signals (err e) = not_created e
    run_created rc signals (ok (k, p)) =
        ran (metrics_server rc) (handle_signals signals (start w net rc p))

    abbrev pub run_loaded : Bool → RuntimeConfig → List Signal → K → Result LoadError Config → Exit
    run_loaded dry_run rc signals k (err e) = load_failed e
    run_loaded dry_run rc signals k (ok cfg) =
        if dry_run
        then validated
        else run_created rc signals (new_server_with_runtime w o client pod cfg rc k)

    -- `main`, for the flags, the flag of a dry run, the file and the signals that are sent.
    unfoldable pub main : Flags → Bool → Option Text → List Signal → K → Exit
    unfolding handle_signals start_metrics_server
    main flags dry_run file signals k =
        run_loaded dry_run (settings flags) signals k (load w.parse_duration d file)
