-- ===== src/Metrics.antt =====
-- internal/metrics/metrics.go: the program's prometheus metrics. A vector is the association list of
-- its children by their label values; a child that is not there yet counts 0. The histogram of the
-- query durations is the list of what was observed.
pub mod Counts
pub mod Backends
use tsdnsreflector.Prelude.{
  ℕ, suc, Text, Bool, true, false, ◌&&◌, List, [], ◌∷◌, codes, text_eq, if◌then◌else◌,
}
use tsdnsreflector.Prelude.Int.{ℤ}

abbrev pub Labels : Type 0
Labels = List Text

abbrev pub Vec : Type 0
Vec = List (Labels × ℕ)

unfoldable pub labels_eq : Labels → Labels → Bool
labels_eq [] [] = true
labels_eq (a ∷ ls) (b ∷ ms) = text_eq a b && labels_eq ls ms
labels_eq _ _ = false

unfoldable pub value : Labels → Vec → ℕ
value labels [] = 0
value labels ((other, n) ∷ v) = if labels_eq other labels then n else value labels v

-- `WithLabelValues(...).Inc()` and `WithLabelValues(...).Set(...)`
unfoldable pub inc : Labels → Vec → Vec
inc labels [] = (labels, 1) ∷ []
inc labels ((other, n) ∷ v) =
    if labels_eq other labels then (other, suc n) ∷ v else (other, n) ∷ inc labels v

unfoldable pub set : Labels → ℕ → Vec → Vec
set labels m [] = (labels, m) ∷ []
set labels m ((other, n) ∷ v) =
    if labels_eq other labels then (other, m) ∷ v else (other, n) ∷ set labels m v

pub record Registry : Type 0 where
  pub dns_queries : Vec
  pub dns_query_duration : List (Text × ℤ)
  pub via6_translations : Vec
  pub via6_errors : Vec
  pub backend_queries : Vec
  pub backend_errors : Vec
  pub cache_operations : Vec
  pub cache_size : Vec
  pub cache_evictions : Vec
  pub client_queries : Vec
  pub tailscale_status : ℕ
  pub zone_memory_usage : Vec
  pub memory_violations : Vec
  pub system_memory_usage : Vec

unfoldable pub new_registry : Registry
new_registry = record {
  dns_queries = [];
  dns_query_duration = [];
  via6_translations = [];
  via6_errors = [];
  backend_queries = [];
  backend_errors = [];
  cache_operations = [];
  cache_size = [];
  cache_evictions = [];
  client_queries = [];
  tailscale_status = 0;
  zone_memory_usage = [];
  memory_violations = [];
  system_memory_usage = [];
}

unfoldable pub record_dns_query : Text → Text → Registry → Registry
record_dns_query zone query_type r = record r {
  dns_queries = inc (zone ∷ query_type ∷ []) r.dns_queries;
}

-- The function that `RecordDNSQuery` returns, called after a time.
unfoldable pub observe_duration : Text → ℤ → Registry → Registry
observe_duration zone duration r = record r {
  dns_query_duration = (zone, duration) ∷ r.dns_query_duration;
}

unfoldable pub record_via6_translation : Text → Registry → Registry
record_via6_translation zone r = record r {
  via6_translations = inc (zone ∷ []) r.via6_translations;
}

unfoldable pub record_via6_error : Text → Text → Registry → Registry
record_via6_error zone error_type r = record r {
  via6_errors = inc (zone ∷ error_type ∷ []) r.via6_errors;
}

unfoldable pub record_backend_query : Text → Text → Registry → Registry
record_backend_query zone backend r = record r {
  backend_queries = inc (zone ∷ backend ∷ []) r.backend_queries;
}

unfoldable pub record_backend_error : Text → Text → Registry → Registry
record_backend_error zone backend r = record r {
  backend_errors = inc (zone ∷ backend ∷ []) r.backend_errors;
}

unfoldable pub record_cache_hit : Text → Registry → Registry
record_cache_hit zone r = record r {
  cache_operations = inc (zone ∷ codes "hit" ∷ []) r.cache_operations;
}

unfoldable pub record_cache_miss : Text → Registry → Registry
record_cache_miss zone r = record r {
  cache_operations = inc (zone ∷ codes "miss" ∷ []) r.cache_operations;
}

unfoldable pub update_cache_size : Text → ℕ → Registry → Registry
update_cache_size zone size r = record r { cache_size = set (zone ∷ []) size r.cache_size }

unfoldable pub record_cache_eviction : Text → Text → Registry → Registry
record_cache_eviction zone eviction_type r = record r {
  cache_evictions = inc (zone ∷ eviction_type ∷ []) r.cache_evictions;
}

unfoldable pub update_tailscale_status : Bool → Registry → Registry
update_tailscale_status up r = record r { tailscale_status = if up then 1 else 0 }

unfoldable pub update_zone_memory_usage : Text → Text → ℕ → Registry → Registry
update_zone_memory_usage zone memory_type bytes r = record r {
  zone_memory_usage = set (zone ∷ memory_type ∷ []) bytes r.zone_memory_usage;
}

unfoldable pub record_memory_violation : Text → Text → Registry → Registry
record_memory_violation zone violation_type r = record r {
  memory_violations = inc (zone ∷ violation_type ∷ []) r.memory_violations;
}

unfoldable pub update_system_memory_usage : ℕ → ℕ → ℕ → Registry → Registry
update_system_memory_usage alloc sys heap_inuse r = record r {
  system_memory_usage =
      set (codes "heap_inuse" ∷ []) heap_inuse
        (set (codes "sys" ∷ []) sys (set (codes "alloc" ∷ []) alloc r.system_memory_usage));
}

unfoldable pub record_external_client_query : Text → Text → Registry → Registry
record_external_client_query zone status r = record r {
  client_queries = inc (zone ∷ codes "external" ∷ status ∷ []) r.client_queries;
}

unfoldable pub record_tailscale_client_query : Text → Registry → Registry
record_tailscale_client_query zone r = record r {
  client_queries = inc (zone ∷ codes "tailscale" ∷ codes "allowed" ∷ []) r.client_queries;
}
