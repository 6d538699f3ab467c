-- ===== src/Memory.antt =====
-- internal/memory/monitor.go: the memory monitor. Byte counts are int64 bit patterns; `violations`
-- are the violation metrics that the calls have recorded, newest first.
pub mod Limits
use tsdnsreflector.Prelude.{
  ℕ, suc, ◌-◌, ◌^◌, Text, Bool, true, false, not, Option, none, some, List, [], ◌∷◌, Dict, length,
  lookup, insert, if◌then◌else◌, codes,
}
use tsdnsreflector.Prelude.Int.{ℤ, pos, negsuc, ltz}
use tsdnsreflector.Prelude.Word.{add64, gt64}

pub record Usage : Type 0 where
  pub cache_size : ℕ
  pub query_history : ℕ
  pub last_updated : ℤ
  pub max_cache_size : ℕ
  pub max_query_buffer : ℕ

pub record GlobalLimits : Type 0 where
  pub max_zone_count : ℤ
  pub max_total_memory : ℕ
  pub max_cache_per_zone : ℕ
  pub max_buffer_per_zone : ℕ

pub data LimitType : Type 0 where
  zone_count zone_not_registered cache_memory query_buffer_memory global_memory : LimitType

-- `MemoryLimitError`; its message is determined by its type.
pub record MemoryLimitError : Type 0 where
  pub type : LimitType
  pub limit : ℕ
  pub current : ℕ

pub data Violation : Type 0 where
  cache query_buffer : Text → Violation
  total_memory : Violation

pub record Monitor : Type 0 where
  pub zones : Dict Usage
  pub global_limits : GlobalLimits
  pub enabled : Bool
  pub violations : List Violation

unfoldable pub new_monitor : GlobalLimits → Monitor
new_monitor limits = record { zones = []; global_limits = limits; enabled = true; violations = [] }

-- An `int` as an int64 pattern.
abbrev pub word_of : ℤ → ℕ
word_of (pos n) = n
word_of (negsuc n) = 2 ^ 64 - suc n

unfoldable pub register_zone : ℤ → Text → Monitor → Monitor × Option MemoryLimitError
register_zone now name m =
    if not (ltz (pos (length m.zones)) m.global_limits.max_zone_count)
    then (
      m,
      some (record {
        type = zone_count;
        limit = word_of m.global_limits.max_zone_count;
        current = length m.zones;
      }),
    )
    else (
      record m {
        zones =
            insert name
              (record {
                cache_size = 0;
                query_history = 0;
                last_updated = now;
                max_cache_size = m.global_limits.max_cache_per_zone;
                max_query_buffer = m.global_limits.max_buffer_per_zone;
              })
              m.zones;
      },
      none,
    )

abbrev not_registered : MemoryLimitError
not_registered = record { type = zone_not_registered; limit = 0; current = 0 }

-- `UpdateCacheUsage` after the look at the map.
unfoldable pub update_cache :
    ℤ → Text → ℕ → Option Usage → Monitor → Monitor × Option MemoryLimitError
update_cache now name bytes none m = (m, some not_registered)
update_cache now name bytes (some u) m =
    if gt64 bytes u.max_cache_size
    then (
      record m { violations = cache name ∷ m.violations },
      some (record { type = cache_memory; limit = u.max_cache_size; current = bytes }),
    )
    else (
      record m {
        zones = insert name (record u { cache_size = bytes; last_updated = now }) m.zones;
      },
      none,
    )

unfoldable pub update_cache_usage : ℤ → Text → ℕ → Monitor → Monitor × Option MemoryLimitError
unfolding update_cache
update_cache_usage now name bytes m =
    if not m.enabled then (m, none) else update_cache now name bytes (lookup name m.zones) m

unfoldable pub update_buffer :
    ℤ → Text → ℕ → Option Usage → Monitor → Monitor × Option MemoryLimitError
update_buffer now name bytes none m = (m, none)
update_buffer now name bytes (some u) m =
    if gt64 bytes u.max_query_buffer
    then (
      record m { violations = query_buffer name ∷ m.violations },
      some (record { type = query_buffer_memory; limit = u.max_query_buffer; current = bytes }),
    )
    else (
      record m {
        zones = insert name (record u { query_history = bytes; last_updated = now }) m.zones;
      },
      none,
    )

unfoldable pub update_query_buffer_usage :
    ℤ → Text → ℕ → Monitor → Monitor × Option MemoryLimitError
unfolding update_buffer
update_query_buffer_usage now name bytes m =
    if not m.enabled then (m, none) else update_buffer now name bytes (lookup name m.zones) m

unfoldable pub sum_usage : Dict Usage → ℕ → ℕ
sum_usage [] total = total
sum_usage ((name, u) ∷ us) total = sum_usage us (add64 total (add64 u.cache_size u.query_history))

unfoldable pub get_total_memory_usage : Monitor → ℕ
unfolding sum_usage
get_total_memory_usage m = sum_usage m.zones 0

unfoldable pub check_global_limits : Monitor → Monitor × Option MemoryLimitError
check_global_limits m =
    let used = get_total_memory_usage m in
    if not m.enabled
    then (m, none)
    else if gt64 used m.global_limits.max_total_memory
    then (
      record m { violations = total_memory ∷ m.violations },
      some (record {
        type = global_memory;
        limit = m.global_limits.max_total_memory;
        current = used;
      }),
    )
    else (m, none)

unfoldable pub get_zone_usage : Text → Monitor → Option Usage
get_zone_usage name m = lookup name m.zones

unfoldable pub disable : Monitor → Monitor
disable m = record m { enabled = false }

unfoldable pub enable : Monitor → Monitor
enable m = record m { enabled = true }

-- `MemoryLimitError.IsLimitExceeded`
unfoldable pub is_limit_exceeded : MemoryLimitError → Bool
is_limit_exceeded e = gt64 e.current e.limit
