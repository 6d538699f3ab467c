-- ===== src/Metrics/Backends.antt =====
-- The counters of the backends' queries and errors.
use tsdnsreflector.Prelude.{◌≤◌, ◌≡◌, refl, Text, List, [], ◌∷◌, arith}
use tsdnsreflector.Config.Load.{Decoder}
use tsdnsreflector.Dns.{
  Event, dns_query, cache_hit, cache_miss, via6_translation, via6_error, cache_size, backend_query,
  backend_error, external_blocked, external_allowed,
}
use tsdnsreflector.Dns.Kept.Instances.{queries_of, errors_of}
use tsdnsreflector.Dns.Server.{Server}
use tsdnsreflector.Dns.Steps.{Reachable}
use tsdnsreflector.Dns.Steps.Counters.{Reachable-errors}
use tsdnsreflector.Metrics.{
  value, new_registry, labels_eq, record_dns_query, record_via6_translation, record_via6_error,
  record_backend_query, record_backend_error, record_cache_hit, record_cache_miss,
  update_cache_size, record_external_client_query,
}
use tsdnsreflector.Metrics.Counts.{observe_all, value-inc}
use tsdnsreflector.World.{World}

observe_all-queries :
    (zone_name backend : Text) (es : List Event)
    → value (zone_name ∷ backend ∷ []) (observe_all es new_registry).backend_queries
      ≡ queries_of zone_name backend es
unfolding observe_all record_dns_query record_via6_translation record_via6_error
    record_backend_query record_backend_error update_cache_size record_external_client_query
    record_cache_hit record_cache_miss labels_eq value new_registry
observe_all-queries zone_name backend [] = refl
observe_all-queries zone_name backend (backend_query z b ∷ es) =
    rw
      (value-inc (z ∷ b ∷ []) (zone_name ∷ backend ∷ [])
        (observe_all es new_registry).backend_queries)
      (ground (arith, observe_all-queries zone_name backend es))
observe_all-queries zone_name backend (backend_error z b ∷ es) =
    observe_all-queries zone_name backend es
observe_all-queries zone_name backend (dns_query z t ∷ es) =
    observe_all-queries zone_name backend es
observe_all-queries zone_name backend (via6_translation z ∷ es) =
    observe_all-queries zone_name backend es
observe_all-queries zone_name backend (via6_error z ∷ es) = observe_all-queries zone_name backend es
observe_all-queries zone_name backend (cache_hit z ∷ es) = observe_all-queries zone_name backend es
observe_all-queries zone_name backend (cache_miss z ∷ es) = observe_all-queries zone_name backend es
observe_all-queries zone_name backend (cache_size z n ∷ es) =
    observe_all-queries zone_name backend es
observe_all-queries zone_name backend (external_blocked z ∷ es) =
    observe_all-queries zone_name backend es
observe_all-queries zone_name backend (external_allowed z ∷ es) =
    observe_all-queries zone_name backend es

observe_all-errors :
    (zone_name backend : Text) (es : List Event)
    → value (zone_name ∷ backend ∷ []) (observe_all es new_registry).backend_errors
      ≡ errors_of zone_name backend es
unfolding observe_all record_dns_query record_via6_translation record_via6_error
    record_backend_query record_backend_error update_cache_size record_external_client_query
    record_cache_hit record_cache_miss labels_eq value new_registry
observe_all-errors zone_name backend [] = refl
observe_all-errors zone_name backend (backend_error z b ∷ es) =
    rw
      (value-inc (z ∷ b ∷ []) (zone_name ∷ backend ∷ [])
        (observe_all es new_registry).backend_errors)
      (ground (arith, observe_all-errors zone_name backend es))
observe_all-errors zone_name backend (backend_query z b ∷ es) =
    observe_all-errors zone_name backend es
observe_all-errors zone_name backend (dns_query z t ∷ es) = observe_all-errors zone_name backend es
observe_all-errors zone_name backend (via6_translation z ∷ es) =
    observe_all-errors zone_name backend es
observe_all-errors zone_name backend (via6_error z ∷ es) = observe_all-errors zone_name backend es
observe_all-errors zone_name backend (cache_hit z ∷ es) = observe_all-errors zone_name backend es
observe_all-errors zone_name backend (cache_miss z ∷ es) = observe_all-errors zone_name backend es
observe_all-errors zone_name backend (cache_size z n ∷ es) = observe_all-errors zone_name backend es
observe_all-errors zone_name backend (external_blocked z ∷ es) =
    observe_all-errors zone_name backend es
observe_all-errors zone_name backend (external_allowed z ∷ es) =
    observe_all-errors zone_name backend es

module _ (w : World) (d : Decoder) where
  -- In every server that events lead to, the counter of a backend's errors for a zone is at most
  -- that of its queries, both counted by the metrics of the recorded events.
  pub Reachable-backend_errors :
      (s : Server) (zone_name backend : Text)
      → Reachable w d s
      → value (zone_name ∷ backend ∷ []) (observe_all s.state.events new_registry).backend_errors
        ≤ value (zone_name ∷ backend ∷ []) (observe_all s.state.events new_registry).backend_queries
  Reachable-backend_errors s zone_name backend reached =
      rw
        (
          observe_all-errors zone_name backend s.state.events,
          observe_all-queries zone_name backend s.state.events,
        )
        (Reachable-errors w d zone_name backend s reached)
