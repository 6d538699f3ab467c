-- ===== src/Metrics/Counts.antt =====
-- What the counters say of the events that the DNS handler records.
use tsdnsreflector.Prelude.{
  ℕ, suc, ◌+◌, ◌≡◌, ◌↔◌, refl, ap, sym, ◌∙◌, Text, true, List, [], ◌∷◌, codes, text_eq, text_eq_iff,
  text_eq_refl, if◌then◌else◌, arith,
}
use tsdnsreflector.Dns.{
  Event, dns_query, cache_hit, cache_miss, via6_translation, via6_error, cache_size, backend_query,
  backend_error, external_blocked, external_allowed,
}
use tsdnsreflector.Metrics.{
  Labels, Vec, Registry, labels_eq, value, inc, record_dns_query, record_via6_translation,
  record_via6_error, record_backend_query, record_backend_error, record_cache_hit,
  record_cache_miss, update_cache_size, record_external_client_query,
}

-- The call that records an event.
unfoldable pub observe : Event → Registry → Registry
observe (dns_query zone query_type) r = record_dns_query zone query_type r
observe (cache_hit zone) r = record_cache_hit zone r
observe (cache_miss zone) r = record_cache_miss zone r
observe (via6_translation zone) r = record_via6_translation zone r
observe (via6_error zone) r = record_via6_error zone (codes "translation_failed") r
observe (cache_size zone size) r = update_cache_size zone size r
observe (backend_query zone backend) r = record_backend_query zone backend r
observe (backend_error zone backend) r = record_backend_error zone backend r
observe (external_blocked zone) r = record_external_client_query zone (codes "blocked") r
observe (external_allowed zone) r = record_external_client_query zone (codes "allowed") r

-- The events of a state, of which the newest is the first.
unfoldable pub observe_all : List Event → Registry → Registry
unfolding observe
observe_all [] r = r
observe_all (e ∷ es) r = observe e (observe_all es r)

labels_eq_refl : (a : Labels) → labels_eq a a ≡ true
unfolding labels_eq
labels_eq_refl [] = refl
labels_eq_refl (a ∷ ls) = ground (arith, text_eq_refl a, labels_eq_refl ls)

eq_of_labels_eq : (a b : Labels) → labels_eq a b ≡ true → a ≡ b
unfolding labels_eq
eq_of_labels_eq [] [] h = refl
eq_of_labels_eq (a ∷ ls) (b ∷ ms) h = ground (arith, text_eq_iff a b, eq_of_labels_eq ls ms)
eq_of_labels_eq [] (b ∷ ms) h = ground arith
eq_of_labels_eq (a ∷ ls) [] h = ground arith

pub labels_eq_iff : (a b : Labels) → (labels_eq a b ≡ true) ↔ (a ≡ b)
labels_eq_iff a b = (eq_of_labels_eq a b, λ e. ap (labels_eq a) (sym e) ∙ labels_eq_refl a)

-- `Inc` raises the child by 1 and changes no other.
pub value-inc :
    (labels other : Labels) (v : Vec)
    → value other (inc labels v)
      ≡ (if labels_eq labels other then suc (value other v) else value other v)
unfolding value inc
value-inc labels other [] = ground arith
value-inc labels other ((l, n) ∷ v) = ground (
  arith,
  value-inc labels other v,
  labels_eq_iff labels other,
  labels_eq_iff l labels,
  labels_eq_iff l other,
)

-- The hits of a zone among the events.
abbrev pub hits_of : Text → List Event → ℕ
hits_of zone [] = 0
hits_of zone (cache_hit z ∷ es) = if text_eq z zone then suc (hits_of zone es) else hits_of zone es
hits_of zone (e ∷ es) = hits_of zone es

-- The counter of a zone's cache hits goes up by 1 with each hit, and with no other event.
pub observe_all-hits :
    (zone : Text) (es : List Event) (r : Registry)
    → value (zone ∷ codes "hit" ∷ []) (observe_all es r).cache_operations
      ≡ hits_of zone es + value (zone ∷ codes "hit" ∷ []) r.cache_operations
unfolding observe_all record_dns_query record_via6_translation record_via6_error
    record_backend_query record_backend_error update_cache_size record_external_client_query
    record_cache_hit record_cache_miss labels_eq text_eq
observe_all-hits zone [] r = omega arith
observe_all-hits zone (cache_hit z ∷ es) r =
    rw
      (value-inc (z ∷ codes "hit" ∷ []) (zone ∷ codes "hit" ∷ [])
        (observe_all es r).cache_operations)
      (ground (arith, observe_all-hits zone es r))
observe_all-hits zone (cache_miss z ∷ es) r =
    rw
      (value-inc (z ∷ codes "miss" ∷ []) (zone ∷ codes "hit" ∷ [])
        (observe_all es r).cache_operations)
      (ground (arith, observe_all-hits zone es r))
observe_all-hits zone (dns_query z t ∷ es) r = observe_all-hits zone es r
observe_all-hits zone (via6_translation z ∷ es) r = observe_all-hits zone es r
observe_all-hits zone (via6_error z ∷ es) r = observe_all-hits zone es r
observe_all-hits zone (cache_size z n ∷ es) r = observe_all-hits zone es r
observe_all-hits zone (backend_query z b ∷ es) r = observe_all-hits zone es r
observe_all-hits zone (backend_error z b ∷ es) r = observe_all-hits zone es r
observe_all-hits zone (external_blocked z ∷ es) r = observe_all-hits zone es r
observe_all-hits zone (external_allowed z ∷ es) r = observe_all-hits zone es r
