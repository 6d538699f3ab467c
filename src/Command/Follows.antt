-- ===== src/Command/Follows.antt =====
-- What `main` comes to, on every way out.
use tsdnsreflector.Prelude.{
  ◌≡◌, Text, Bool, true, false, not, ◌&&◌, Option, none, some, List, [], is_empty, if◌then◌else◌,
}
use tsdnsreflector.Prelude.Result.{ok, err}
use tsdnsreflector.Config.{Config}
use tsdnsreflector.Config.Load.{Decoder, load}
use tsdnsreflector.Config.Runtime.{RuntimeConfig}
use tsdnsreflector.KubeStore.{Client, Pod}
use tsdnsreflector.Tailscale.Auth.{Outside}
use tsdnsreflector.Dns.Server
use tsdnsreflector.Dns.Server.{reload_config, apply_config}
use tsdnsreflector.Dns.Startup.{Network, new_server_with_runtime}
use tsdnsreflector.Command.{Signal, Exit, load_failed, validated, not_created, ran, MetricsServer}
use tsdnsreflector.Command.Signals.{Follows}
use tsdnsreflector.World.{World}

module _ (w : World) (d : Decoder) where
  module _ (o : Outside) {K : Type 0} (client : Client K) (pod : Pod) (net : Network) where
    -- The metrics server listens on the HTTP port of all addresses, if metrics are enabled.
    abbrev pub expected_metrics : RuntimeConfig → Option MetricsServer
    expected_metrics rc =
        if rc.metrics_enabled
        then some (record { address = ([], rc.http_port); metrics_path = rc.metrics_path })
        else none

    -- The way out of `main`, for its settings, the flag of a dry run, the file and the signals: `k`
    -- is what the Kubernetes client meets.
    abbrev pub MainFollows : RuntimeConfig → Bool → Option Text → List Signal → K → Exit → Type 0
    MainFollows rc dry_run file signals k (load_failed e) = load w.parse_duration d file ≡ err e
    MainFollows rc dry_run file signals k validated =
        (dry_run ≡ true) × ((cfg : Config) × (load w.parse_duration d file ≡ ok cfg))
    MainFollows rc dry_run file signals k (not_created e) =
        (dry_run ≡ false)
        × ((cfg : Config) × (load w.parse_duration d file ≡ ok cfg)
            × (new_server_with_runtime w o client pod cfg rc k ≡ err e))
    MainFollows rc dry_run file signals k (ran metrics outcome) =
        (dry_run ≡ false)
        × (metrics ≡ expected_metrics rc)
        × ((cfg : Config) × (load w.parse_duration d file ≡ ok cfg)
            × Follows w d (not (is_empty rc.ts_auth_key) && net.starts) cfg signals outcome)
