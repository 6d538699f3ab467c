-- ===== src/Dns/Server/Made.antt =====
-- What a new server holds.
use tsdnsreflector.Prelude.{ℕ, Bool, ◌≡◌, ap, sym, [], ◌∙◌, false}
use tsdnsreflector.Prelude.Result.{ok, bind-ok, ok_injective}
use tsdnsreflector.Config.{Config}
use tsdnsreflector.Memory.{new_monitor}
use tsdnsreflector.Via6.{new_translator}
use tsdnsreflector.Dns.{new_forwarder}
use tsdnsreflector.Dns.Server.{Server, new_server, make_caches, register_zones, memory_limits}
use tsdnsreflector.World.{World}

module _ (w : World) (ttl : ℕ) (tsnet : Bool) (cfg : Config) where
  -- The parts of a server that `NewServerWithRuntime` makes.
  pub record IsMade (s : Server) : Type 0 where
    pub translator : new_translator w cfg ≡ ok s.handler.via6_trans
    pub config : s.handler.config ≡ cfg
    pub forwarder : s.handler.forwarder ≡ new_forwarder w false cfg.global.backend
    pub tsnet_kept : s.tsnet ≡ tsnet
    pub handler_tsnet : s.handler.tsnet ≡ false
    pub events : s.state.events ≡ []
    pub caches : s.state.caches ≡ make_caches w cfg cfg.zones []
    pub monitor : s.state.monitor ≡ register_zones w 0 cfg.zones (new_monitor memory_limits)

  pub new_server-IsMade : (s : Server) → new_server w ttl tsnet cfg ≡ ok s → IsMade s
  unfolding new_server
  new_server-IsMade s h =
      let (t, e, same) = bind-ok (new_translator w cfg) _ s h in
      let is = sym (ok_injective _ s same) in
      record {
        translator = e ∙ ap (λ x. ok x.handler.via6_trans) (sym is);
        config = ap (λ x. x.handler.config) is;
        forwarder = ap (λ x. x.handler.forwarder) is;
        tsnet_kept = ap (λ x. x.tsnet) is;
        handler_tsnet = ap (λ x. x.handler.tsnet) is;
        events = ap (λ x. x.state.events) is;
        caches = ap (λ x. x.state.caches) is;
        monitor = ap (λ x. x.state.monitor) is;
      }
