-- ===== src/Dns/Steps.antt =====
-- A server's life: the events that change it, one after another, and the states that they reach. A
-- cache's cleanup routine and the periodic check of the memory are events of their own.
pub mod Runs
pub mod Caches
pub mod Sound
pub mod Counters
use tsdnsreflector.Prelude.{ℕ, Text, Bool, ◌≡◌, Option, some, lookup, insert}
use tsdnsreflector.Prelude.Int.{ℤ}
use tsdnsreflector.Prelude.Result.{ok}
use tsdnsreflector.Message.{Msg}
use tsdnsreflector.Config.{Config}
use tsdnsreflector.Config.Load.{Decoder, load}
use tsdnsreflector.Cache.{ZoneCache, cleanup_expired}
use tsdnsreflector.Memory.{check_global_limits}
use tsdnsreflector.Dns.{State}
use tsdnsreflector.Dns.Serve.{serve_dns}
use tsdnsreflector.Dns.Server.{Server, new_server, start}
use tsdnsreflector.Command.{reload_configuration}
use tsdnsreflector.World.{World}

module _ (w : World) (d : Decoder) where
  -- One event.
  pub data Step : Server → Server → Type 0 where
    -- `ServeDNS` for a message from a remote address, if it does not panic.
    query :
        {s : Server} (remote : Text) (r : Msg) (state : State)
        → serve_dns w s.handler remote r s.state ≡ some state
        → Step s (record s { state = state })
    -- SIGHUP, for the content of the file.
    reload : {s : Server} (file : Option Text) → Step s (reload_configuration w d file s).0
    -- The assignments of `Start`.
    started : {s : Server} → Step s (start w s)
    -- The tick of one cache's cleanup routine.
    cleanup :
        {s : Server} (now : ℤ) (name : Text) (c : ZoneCache)
        → lookup name s.state.caches ≡ some c
        → Step s (record s {
          state = record s.state {
            caches = insert name (cleanup_expired w.dns now c) s.state.caches;
          };
        })
    -- The tick of the memory monitor.
    check :
        {s : Server}
        → Step s (record s {
          state = record s.state { monitor = (check_global_limits s.state.monitor).0 };
        })

  -- The servers that events lead to, from a new server for a file that `Load` reads.
  pub data Reachable : Server → Type 0 where
    made :
        {s : Server} (file : Option Text) (cfg : Config) (ttl : ℕ) (tsnet : Bool)
        → load w.parse_duration d file ≡ ok cfg
        → new_server w ttl tsnet cfg ≡ ok s
        → Reachable s
    after : {s s' : Server} → Reachable s → Step s s' → Reachable s'
