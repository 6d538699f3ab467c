-- ===== src/Cache.antt =====
-- internal/cache/cache.go: one zone's cache. A method takes the readings of the clock that it
-- makes. `memory_usage` is an int64 as its bit pattern; `recorded` are the eviction metrics that
-- the methods have recorded, newest first. Entries are `*CacheEntry` that no one changes after they
-- are stored.
pub mod Calls
pub mod Accounting
pub mod Expiry
pub mod Oldest
pub mod Reads
pub mod Key
pub mod Keys
pub mod Capacity
pub mod History
pub mod Complete
use tsdnsreflector.Prelude.{
  ℕ, zero, suc, ◌+◌, Text, Bool, true, false, not, ◌||◌, Option, none, some, List, [], ◌∷◌, ◌++◌,
  Dict, is_empty, length, lookup, insert, erase, if◌then◌else◌,
}
use tsdnsreflector.Prelude.Int.{ℤ, pos, ltz, quot, ◌+ℤ◌, is_positive}
use tsdnsreflector.Prelude.Word.{add64, sub64}
use tsdnsreflector.Message
use tsdnsreflector.Message.{Question, Rr, Msg, DnsLib}

pub record CacheEntry : Type 0 where
  pub response : Msg
  pub expires_at : ℤ

pub data Eviction : Type 0 where
  expired lru : Eviction

pub record ZoneCache : Type 0 where
  pub entries : Dict CacheEntry
  pub max_size : ℤ
  pub ttl : ℤ
  pub zone_name : Text
  pub memory_usage : ℕ
  pub stopped : Bool
  pub recorded : List Eviction

unfoldable pub new_zone_cache_with_name : ℤ → ℤ → Text → ZoneCache
new_zone_cache_with_name max_size ttl name = record {
  entries = [];
  max_size = max_size;
  ttl = ttl;
  zone_name = name;
  memory_usage = 0;
  stopped = false;
  recorded = [];
}

unfoldable pub new_zone_cache : ℤ → ℤ → ZoneCache
unfolding new_zone_cache_with_name
new_zone_cache max_size ttl = new_zone_cache_with_name max_size ttl []

-- `time.NewTicker(zc.ttl / 4)` in `startCleanupRoutine` panics (`false`) unless the period is
-- positive.
unfoldable pub start_cleanup_routine : ZoneCache → Bool
start_cleanup_routine c = is_positive (quot c.ttl 4)

-- `now.After(e.ExpiresAt)`
unfoldable pub is_expired : ℤ → CacheEntry → Bool
is_expired now e = ltz e.expires_at now

unfoldable pub full : ZoneCache → Bool
full c = not (ltz (pos (length c.entries)) c.max_size)

unfoldable pub size : ZoneCache → ℕ
size c = length c.entries

abbrev pub sum_lengths : List Text → ℕ
sum_lengths [] = 0
sum_lengths (t ∷ ts) = length t + sum_lengths ts

abbrev pub record_expired : ℕ → List Eviction → List Eviction
record_expired zero r = r
record_expired (suc n) r = record_expired n (expired ∷ r)

module _ (lib : DnsLib) where
  open lib use {sizeof, rr_string, copy, type_to_string}

  -- The type switch of `calculateRRSize`.
  unfoldable pub rr_data_size : Rr → ℕ
  rr_data_size (Rr.a h ip) = sizeof.a
  rr_data_size (Rr.aaaa h ip) = sizeof.aaaa
  rr_data_size (Rr.cname h t) = sizeof.cname + length t
  rr_data_size (Rr.mx h t) = sizeof.mx + length t
  rr_data_size (Rr.ns h t) = sizeof.ns + length t
  rr_data_size (Rr.ptr h t) = sizeof.ptr + length t
  rr_data_size (Rr.soa h n m) = sizeof.soa + length n + length m
  rr_data_size (Rr.srv h t) = sizeof.srv + length t
  rr_data_size (Rr.txt h ts) = sizeof.txt + sum_lengths ts
  rr_data_size (Rr.other h d) = length (rr_string (Rr.other h d))

  unfoldable pub calculate_rr_size : Rr → ℕ
  unfolding rr_data_size
  calculate_rr_size rr = 24 + length (Message.header rr).name + rr_data_size rr

  unfoldable pub rr_sizes : List Rr → ℕ
  unfolding calculate_rr_size
  rr_sizes [] = 0
  rr_sizes (rr ∷ rrs) = calculate_rr_size rr + rr_sizes rrs

  unfoldable pub question_sizes : List Question → ℕ
  question_sizes [] = 0
  question_sizes (q ∷ qs) = sizeof.question + length q.name + question_sizes qs

  unfoldable pub calculate_dns_msg_size : Option Msg → ℕ
  unfolding rr_sizes question_sizes
  calculate_dns_msg_size none = 0
  calculate_dns_msg_size (some m) =
      sizeof.msg + question_sizes m.question + rr_sizes m.answer + rr_sizes m.ns + rr_sizes m.extra

  unfoldable pub calculate_entry_size : Text → Msg → ℕ
  unfolding calculate_dns_msg_size
  calculate_entry_size key m =
      length key + calculate_dns_msg_size (some m) + sizeof.cache_entry + (length key + 8 + 16)

  -- `Get` after the look at the map.
  abbrev pub answer : ℤ → Option CacheEntry → Option Msg
  answer now none = none
  answer now (some e) = if is_expired now e then none else some (copy e.response)

  unfoldable pub get : ℤ → Text → ZoneCache → Option Msg
  get now key c = answer now (lookup key c.entries)

  -- The loop of `evictExpired`: the entries that stay, the memory that is left, the number evicted.
  unfoldable pub drop_expired : ℤ → Dict CacheEntry → ℕ → Dict CacheEntry × ℕ × ℕ
  drop_expired now [] usage = ([], usage, 0)
  drop_expired now ((k, e) ∷ es) usage =
      let gone = is_expired now e in
      let usage' = if gone then sub64 usage (calculate_entry_size k e.response) else usage in
      let (left, final, n) = drop_expired now es usage' in
      if gone then (left, final, suc n) else ((k, e) ∷ left, final, n)

  unfoldable pub evict_expired : ℤ → ZoneCache → ZoneCache
  evict_expired now c =
      let (left, usage, n) = drop_expired now c.entries c.memory_usage in
      record c {
        entries = left;
        memory_usage = usage;
        recorded = if is_empty c.zone_name then c.recorded else record_expired n c.recorded;
      }

  -- `oldestKey == ""`
  abbrev pub no_oldest : Option (Text × CacheEntry) → Bool
  no_oldest none = true
  no_oldest (some (k, e)) = is_empty k

  abbrev pub before_oldest : CacheEntry → Option (Text × CacheEntry) → Bool
  before_oldest e none = false
  before_oldest e (some (k, o)) = ltz e.expires_at o.expires_at

  -- The loop of `evictOldest`.
  unfoldable pub find_oldest :
      Dict CacheEntry → Option (Text × CacheEntry) → Option (Text × CacheEntry)
  find_oldest [] o = o
  find_oldest ((k, e) ∷ es) o =
      find_oldest es (if no_oldest o || before_oldest e o then some (k, e) else o)

  abbrev pub evict_found : Option (Text × CacheEntry) → ZoneCache → ZoneCache
  evict_found none c = c
  evict_found (some (k, e)) c = if is_empty k then c else record c {
    entries = erase k c.entries;
    memory_usage = sub64 c.memory_usage (calculate_entry_size k e.response);
    recorded = if is_empty c.zone_name then c.recorded else lru ∷ c.recorded;
  }

  unfoldable pub evict_oldest : ZoneCache → ZoneCache
  evict_oldest c = evict_found (find_oldest c.entries none) c

  -- The eviction at the head of `Set`.
  unfoldable pub make_room : ℤ → ZoneCache → ZoneCache
  make_room now c =
      if full c
      then (let c' = evict_expired now c in if full c' then evict_oldest c' else c')
      else c

  -- `evicting` and `storing` are the two readings of the clock.
  unfoldable pub set : ℤ → ℤ → Text → Msg → ZoneCache → ZoneCache
  set evicting storing key response c =
      let c' = make_room evicting c in
      record c' {
        entries =
            insert key (record { response = copy response; expires_at = storing +ℤ c.ttl })
              c'.entries;
        memory_usage = add64 c'.memory_usage (calculate_entry_size key response);
      }

  unfoldable pub cleanup_expired : ℤ → ZoneCache → ZoneCache
  cleanup_expired now c = evict_expired now c

  -- `CacheKey`; `none` is a nil IP, and `ip_text` the text of any other.
  unfoldable pub cache_key : Text → ℕ → Option Text → Text
  cache_key name qtype none = name ++ b':' ∷ type_to_string qtype
  cache_key name qtype (some ip_text) = name ++ b':' ∷ (type_to_string qtype ++ b':' ∷ ip_text)

unfoldable pub clear : ZoneCache → ZoneCache
clear c = record c { entries = []; memory_usage = 0 }

-- `close(zc.stopCleanup)`: closing twice panics, `none`.
unfoldable pub stop : ZoneCache → Option ZoneCache
stop c = if c.stopped then none else some (record c { stopped = true })
