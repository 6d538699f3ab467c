-- ===== src/Command/Life.antt =====
-- The servers of `main`: those that events lead to.
use tsdnsreflector.Prelude.{
  ◌≡◌, ap, ◌∙◌, inl, inr, Text, Bool, not, Option, none, some, List, [], ◌∷◌, if_both, arith,
  is_empty,
}
use tsdnsreflector.Prelude.Result.{Result, ok, err, Result-cases, bind-ok, ok_injective}
use tsdnsreflector.Config.{Config}
use tsdnsreflector.Config.Load.{Decoder, load}
use tsdnsreflector.Config.Runtime.{RuntimeConfig, Flags, to_tailscale_config}
use tsdnsreflector.KubeStore.{Client, Pod}
use tsdnsreflector.Tailscale.Auth.{Outside}
use tsdnsreflector.Address.{Ip}
use tsdnsreflector.Via6.{Via6Error}
use tsdnsreflector.Dns.Server
use tsdnsreflector.Dns.Server.{new_server}
use tsdnsreflector.Dns.Startup.{
  Network, Program, Run, new_server_with_runtime, start, stop, translated, connected, waited,
  wait_for_ips, tsnet_of,
}
use tsdnsreflector.Dns.Steps.{Reachable, reload, started, made, after}
use tsdnsreflector.Command.{
  Signal, hangup, interrupt, terminate, Outcome, waiting, Exit, ran, stop_result, reload_run,
  handle_signals, run_loaded, run_created, main, settings,
}
use tsdnsreflector.World.{World}

-- If the program waits for signals, its server has the property.
abbrev pub WaitingWith : (Server.Server → Type 0) → Outcome → Type 0
WaitingWith P (waiting r) = P r.program.server
WaitingWith P _ = Unit

abbrev pub WaitsWith : (Server.Server → Type 0) → Exit → Type 0
WaitsWith P (ran metrics outcome) = WaitingWith P outcome
WaitsWith P _ = Unit

translated-ok : {A : Type 0} (r : Result Via6Error A) (a : A) → translated r ≡ ok a → r ≡ ok a
translated-ok (ok b) a h = ap (λ x. ok x) (ok_injective b a h)
translated-ok (err e) a h = absurd (ground arith)

module _ (w : World) (d : Decoder) where
  stop_result-Reachable : (o : Option Run) → WaitingWith (Reachable w d) (stop_result o)
  stop_result-Reachable none = tt
  stop_result-Reachable (some r) = tt

  handle_signals-Reachable :
      (signals : List Signal) (r : Run)
      → Reachable w d r.program.server
      → WaitingWith (Reachable w d) (handle_signals w d signals r)
  unfolding handle_signals
  handle_signals-Reachable [] r reached = reached
  handle_signals-Reachable (hangup file ∷ signals) r reached =
      handle_signals-Reachable signals (reload_run w d file r) (after reached (reload file))
  handle_signals-Reachable (interrupt ∷ signals) r reached = stop_result-Reachable (stop r)
  handle_signals-Reachable (terminate ∷ signals) r reached = stop_result-Reachable (stop r)

  module _ (net : Network) (rc : RuntimeConfig) where
    waited-Reachable :
        (p : Program) (o : Option (Option Ip × Option Ip))
        → Reachable w d p.server
        → Reachable w d (waited w net rc p o).program.server
    waited-Reachable p none reached = reached
    waited-Reachable p (some found) reached = reached

    pub start-Reachable :
        (p : Program) → Reachable w d p.server → Reachable w d (start w net rc p).program.server
    unfolding start
    start-Reachable p reached =
        let P : Run → Type 0 = λ r. Reachable w d r.program.server in
        let handed = record p { server = Server.start w p.server } in
        if_both P (not p.server.tsnet) _ _ reached (
          if_both P (not net.starts) _ _ reached
            (waited-Reachable handed (wait_for_ips net 10 0).0 (after reached started)))

    module _ (o : Outside) {K : Type 0} (client : Client K) (pod : Pod) (k : K) where
      pub created-server :
          (cfg : Config) (k' : K) (p : Program)
          → new_server_with_runtime w o client pod cfg rc k ≡ ok (k', p)
          → new_server w rc.default_ttl (not (is_empty rc.ts_auth_key)) cfg ≡ ok p.server
      unfolding new_server_with_runtime to_tailscale_config
      created-server cfg k' p h =
          let ts = to_tailscale_config rc in
          let (s, e, h1) = bind-ok (translated (new_server w rc.default_ttl _ cfg)) _ (k', p) h in
          let (made_here, e', h2) =
            bind-ok (connected (tsnet_of w o client pod ts k)) _ (k', p) h1 in
          translated-ok (new_server w rc.default_ttl _ cfg) s e
          ∙ ap (λ x. ok x.1.server) (ok_injective _ (k', p) h2)

      run_created-Reachable :
          (cfg : Config) (signals : List Signal) (file : Option Text)
          → load w.parse_duration d file ≡ ok cfg
          → WaitsWith (Reachable w d) (
              run_created w d o client pod net rc signals
                (new_server_with_runtime w o client pod cfg rc k))
      run_created-Reachable cfg signals file loaded =
          elim (Result-cases (new_server_with_runtime w o client pod cfg rc k)) [
            | inl ((k', p), e) ↦ rw e (
                handle_signals-Reachable signals (start w net rc p) (
                  start-Reachable p
                    (made file cfg rc.default_ttl _ loaded (created-server cfg k' p e))))
            | inr (x, e) ↦ rw e tt
          ]

  module _ (o : Outside) {K : Type 0} (client : Client K) (pod : Pod) (net : Network) where
    run_loaded-Reachable :
        (dry_run : Bool) (rc : RuntimeConfig) (signals : List Signal) (k : K) (file : Option Text)
        → WaitsWith
            (Reachable w d)
            (run_loaded w d o client pod net dry_run rc signals k (load w.parse_duration d file))
    run_loaded-Reachable dry_run rc signals k file =
        elim (Result-cases (load w.parse_duration d file)) [
          | inl (cfg, e) ↦ rw e (
              if_both (WaitsWith (Reachable w d)) dry_run _ _ tt
                (run_created-Reachable net rc o client pod k cfg signals file e))
          | inr (x, e) ↦ rw e tt
        ]

    -- Whatever signals are sent to the program, while it waits for more its server is one that the
    -- events lead to from a new server for a configuration that `Load` accepts.
    pub main-Reachable :
        (flags : Flags) (dry_run : Bool) (file : Option Text) (signals : List Signal) (k : K)
        → WaitsWith (Reachable w d) (main w d o client pod net flags dry_run file signals k)
    unfolding main
    main-Reachable flags dry_run file signals k =
        run_loaded-Reachable dry_run (settings w d o client pod net flags) signals k file
