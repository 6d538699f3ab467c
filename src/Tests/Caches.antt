-- ===== src/Tests/Caches.antt =====
-- Tests and examples for the caches and the memory monitor.
use tsdnsreflector.Prelude.{
  ℕ, ◌+◌, ◌%◌, ◌^◌, ◌≤◌, ◌≡◌, ◌↔◌, inl, inr, refl, Text, false, none, some, List, [], ◌∷◌, ◌==◌,
  lookup, insert, erase, Distinct, codes, text_eq, All, arith, Bool-cases,
}
use tsdnsreflector.Message.{Msg}
use tsdnsreflector.Prelude.Int.{pos, ◌≤ℤ◌, ◌+ℤ◌}
use tsdnsreflector.Cache.{
  ZoneCache, CacheEntry, new_zone_cache_with_name, get, set, evict_oldest, cache_key, size, full,
  start_cleanup_routine, stop, make_room, evict_expired, drop_expired, is_expired, find_oldest,
}
use tsdnsreflector.Cache.Calls.{Call, set_at, run, step, cleanup_at}
use tsdnsreflector.Cache.Accounting.{run-memory_usage, total, overwritten}
use tsdnsreflector.Cache.Capacity.{run-size, limit}
use tsdnsreflector.Cache.Complete.{spec_answer, get-last_set_room}
use tsdnsreflector.Cache.Oldest.{evict_oldest-least}
use tsdnsreflector.Cache.History.{Answers, last_set, get-last_set}
use tsdnsreflector.Cache.Key.{cache_key_iff, HasNoColon}
use tsdnsreflector.Memory.{GlobalLimits, new_monitor}
use tsdnsreflector.Memory.Limits.{IsSafe, run-IsSafe}
use tsdnsreflector.Memory.Limits
use tsdnsreflector.Tests.{lib, no_msg, type_text, answer_to}

abbrev key : Text
key = codes "db:A"

abbrev other_key : Text
other_key = codes "web:A"

abbrev response : Msg
response = answer_to no_msg

-- A cache of two entries at most, for ten seconds.
abbrev empty_cache : ZoneCache
empty_cache = new_zone_cache_with_name (pos 2) (pos 10) (codes "corp")

abbrev calls : List Call
calls =
    set_at (pos 1) (pos 1) key response
    ∷ set_at (pos 2) (pos 2) other_key response
    ∷ set_at (pos 3) (pos 3) key response
    ∷ set_at (pos 20) (pos 20) (codes "mail:A") response
    ∷ []

-- A cache with two entries.
abbrev two_entries : ZoneCache
two_entries = record {
  entries =
      (key, record { response = response; expires_at = pos 11 })
      ∷ (other_key, record { response = response; expires_at = pos 12 })
      ∷ [];
  max_size = pos 2;
  ttl = pos 10;
  zone_name = codes "corp";
  memory_usage = 500;
  stopped = false;
  recorded = [];
}

keys-Distinct : Distinct two_entries.entries
unfolding lookup text_eq
keys-Distinct = (refl, (refl, tt))

run_test : size (run lib calls empty_cache) ≡ 1
unfolding size run step set insert make_room full new_zone_cache_with_name text_eq evict_expired
    drop_expired is_expired ◌+ℤ◌ evict_oldest find_oldest erase
run_test = refl

start_cleanup_routine_test : start_cleanup_routine (record empty_cache { ttl = pos 3 }) ≡ false
unfolding start_cleanup_routine
start_cleanup_routine_test = refl

stop_test : elim (stop two_entries) [ none ↦ some two_entries | some c ↦ stop c ] ≡ none
unfolding stop
stop_test = refl

run-memory_usage_example :
    (run lib calls empty_cache).memory_usage
    ≡ (total lib (run lib calls empty_cache).entries + overwritten lib calls empty_cache 0) % 2 ^ 64
run-memory_usage_example = run-memory_usage lib (λ m. refl) calls (pos 2) (pos 10) (codes "corp")

run-size_example :
    (size (run lib calls empty_cache) ≤ limit (pos 2))
    × Distinct (run lib calls empty_cache).entries
run-size_example =
    run-size lib calls (pos 2) (pos 10) (codes "corp") (refl, (refl, (refl, (refl, tt))))

evict_oldest-least_example :
    (k : Text) × (e : CacheEntry) × (lookup k two_entries.entries ≡ some e)
    × ((evict_oldest lib two_entries).entries ≡ erase k two_entries.entries)
    × All (λ x. e.expires_at ≤ℤ x.1.expires_at) two_entries.entries
evict_oldest-least_example =
    evict_oldest-least lib two_entries keys-Distinct (refl, (refl, tt)) (omega arith)

pub no_colon : (t : ℕ) → HasNoColon (type_text t)
no_colon t = elim (Bool-cases (t == 1)) [
  | inl e ↦ rw e ((λ c. ground arith), tt)
  | inr e ↦ rw e (elim (Bool-cases (t == 28)) [
    | inl e' ↦ rw e' (
      (λ c. ground arith),
      ((λ c. ground arith), ((λ c. ground arith), ((λ c. ground arith), tt))),
    )
    | inr e' ↦ rw e' tt
  ])
]

cache_key_iff_example :
    (cache_key lib (codes "db") 1 none ≡ cache_key lib (codes "db") 28 none)
    ↔ ((codes "db" ≡ codes "db") × (type_text 1 ≡ type_text 28))
cache_key_iff_example = cache_key_iff lib no_colon (codes "db") (codes "db") 1 28

abbrev limits : GlobalLimits
limits = record {
  max_zone_count = pos 1;
  max_total_memory = 1000;
  max_cache_per_zone = 100;
  max_buffer_per_zone = 10;
}

abbrev monitor_calls : List Limits.Call
monitor_calls =
    Limits.register (pos 1) (codes "corp")
    ∷ Limits.register (pos 2) (codes "home")
    ∷ Limits.update_cache_to (pos 3) (codes "corp") 90
    ∷ Limits.update_cache_to (pos 4) (codes "corp") 101
    ∷ []

run-IsSafe_example : IsSafe limits (Limits.run monitor_calls (new_monitor limits))
run-IsSafe_example =
    run-IsSafe monitor_calls limits
      (record { cache_limit = omega arith; buffer_limit = omega arith })

abbrev earlier_calls : List Call
earlier_calls = set_at (pos 1) (pos 1) key response ∷ set_at (pos 3) (pos 3) other_key response ∷ []

get-last_set_example :
    Answers lib
      (pos 12)
      (pos 10)
      (last_set key earlier_calls none)
      (get lib (pos 12) key (run lib earlier_calls empty_cache))
get-last_set_example = get-last_set lib earlier_calls (pos 2) (pos 10) (pos 12) (codes "corp") key

abbrev cleaned_calls : List Call
cleaned_calls = set_at (pos 1) (pos 1) key response ∷ cleanup_at (pos 10) ∷ []

get-last_set_room_example :
    get lib (pos 11) key (run lib cleaned_calls empty_cache)
    ≡ spec_answer lib (pos 11) (pos 10) (last_set key cleaned_calls none)
get-last_set_room_example =
    get-last_set_room lib cleaned_calls (pos 2) (pos 10) (pos 11) (codes "corp") key (omega arith)
      (tt, (omega arith, tt))
