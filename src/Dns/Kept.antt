-- ===== src/Dns/Kept.antt =====
-- Relations between the states before and after a call that the handler's steps have, and so have
-- all its calls.
pub mod Stores
pub mod Serve
pub mod Instances
use tsdnsreflector.Prelude.{
  ℕ, zero, suc, ◌≡◌, inl, inr, refl, Text, Bool, true, false, not, ◌&&◌, Option, none, some, List,
  [], ◌∷◌, ◌==◌, Dict, lookup, insert, if◌then◌else◌, codes, text_eq, All, All-In, Bool-cases,
  Option-cases, arith,
}
use mathlib.Core.Path.{subst}
use tsdnsreflector.Message.{Question, Rr, Msg, DnsLib, type_aaaa}
use tsdnsreflector.Prelude.Int.{ℤ, pos_part}
use tsdnsreflector.Prelude.Maps.{lookup-In}
use tsdnsreflector.Config.{ZoneRef}
use tsdnsreflector.Config.Domain.{get_zone}
use tsdnsreflector.Cache
use tsdnsreflector.Memory.{update_cache_usage}
use tsdnsreflector.Cache.{ZoneCache, cache_key}
use tsdnsreflector.Dns.{
  Event, backend_error, backend_query, State, Forwarder, Handler, write_msg, record_event,
  store_response, store_in, new_forwarder, dns_query,
}
use tsdnsreflector.Dns.Client.{get_client_ip, is_tailscale_client}
use tsdnsreflector.Dns.Forward.{
  ask, query_backend, answered, try_backends, retry, forward, store_first,
}
use tsdnsreflector.Dns.Magic.{is_magic_dns_domain, handle_magic_dns_query}
use tsdnsreflector.Dns.Serve.{
  zone_name_of, via6_zone, is_open, handle_zone_query, send_zone_reply, cache_answer, try_cache,
  serve_question, serve_questions, forward_to, finish, serve_all, serve_dns,
}
use tsdnsreflector.Dns.Hits.{IsShared}
use tsdnsreflector.World.{World, Addr}

-- Everything but a failed query of a backend, which is recorded with the query.
abbrev pub IsNoError : Event → Type 0
IsNoError (backend_error zone_name backend) = ⊥
IsNoError e = Unit

-- A preorder on states that the handler's steps have.
pub record Steps (w : World) (R : State → State → Type 0) : Type 0 where
  pub same : (s : State) → R s s
  pub next : (s s' s'' : State) → R s s' → R s' s'' → R s s''
  pub written : (m : Msg) (s : State) → R s (write_msg m s)
  pub recorded : (e : Event) (s : State) → IsNoError e → R s (record_event e s)
  pub failed :
      (zone_name backend : Text) (s : State)
      → R s (
          record_event
            (backend_error zone_name backend)
            (record_event (backend_query zone_name backend) (record s { asked = suc s.asked })))
  pub counted :
      (asked readings : ℕ) (s : State) → R s (record s { asked = asked; readings = readings })
  pub watched :
      (now : ℤ) (zone_name : Text) (usage : ℕ) (s : State)
      → R s (record s { monitor = (update_cache_usage now zone_name usage s.monitor).0 })
  pub stored :
      (evicting storing : ℤ) (zone_name key : Text) (m : Msg) (c : ZoneCache) (s : State)
      → IsShared w.dns key
      → lookup zone_name s.caches ≡ some c
      → R s (record s {
        caches = insert zone_name (Cache.set w.dns evicting storing key m c) s.caches;
      })
