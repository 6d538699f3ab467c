-- ===== src/Dns/Hits.antt =====
-- Cache hits: what the handler stores and what it looks up.
pub mod Stores
pub mod Serve
use tsdnsreflector.Prelude.{
  ℕ, zero, suc, ◌+◌, ◌-◌, ◌≤◌, ◌<◌, ◌≡◌, ◌≢◌, ◌↔◌, ◌⊎◌, inl, inr, refl, sym, ap, ◌∙◌, Text, Bool,
  true, false, not, ◌&&◌, ◌||◌, Option, none, some, List, [], ◌∷◌, ◌++◌, ◌==◌, Dict, lookup, insert,
  erase, Distinct, if◌then◌else◌, codes, text_eq, has_prefix, has_suffix, trim_prefix, trim_suffix,
  All, All-In, length, take, drop, arith, leb, ltb, is_empty, Bool-cases, Option-cases, map,
}
use tsdnsreflector.Message.{
  Question, Header, Rr, Msg, DnsLib, type_a, type_aaaa, class_inet, rcode_success,
  rcode_server_failure, rcode_name_error,
}
use tsdnsreflector.Cache.{ZoneCache, CacheEntry, cache_key}
use tsdnsreflector.Cache.Keys.{HasKeys}
use tsdnsreflector.Dns.{cache_hit, Event, State}

-- The cache hits among the events.
abbrev pub hits : List Event → ℕ
hits [] = 0
hits (cache_hit zone_name ∷ es) = suc (hits es)
hits (e ∷ es) = hits es

-- A key without a client's address.
abbrev pub IsShared : DnsLib → Text → Type 0
IsShared lib key = (name : Text) × (t : ℕ) × (key ≡ cache_key lib name t none)

-- Every entry of every cache is stored under a key without a client's address.
abbrev pub AllShared : DnsLib → Dict ZoneCache → Type 0
AllShared lib = All (λ c. HasKeys (IsShared lib) c.1.entries)

-- No cache hit more, and the stored keys stay without a client's address.
abbrev pub Keeps : DnsLib → State → State → Type 0
Keeps lib s s' = AllShared lib s.caches → (hits s'.events ≡ hits s.events) × AllShared lib s'.caches
