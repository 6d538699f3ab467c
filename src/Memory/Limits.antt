-- ===== src/Memory/Limits.antt =====
-- What the monitor keeps within its limits, whatever is called.
use tsdnsreflector.Prelude.{
  ℕ, ◌≤◌, ◌<◌, ◌^◌, Text, Bool, true, false, not, ◌≡◌, refl, ap, Option, none, some, List, [], ◌∷◌,
  Dict, length, lookup, insert, if◌then◌else◌, arith, All, All-In, Bool-cases, inl, inr, text_eq,
  suc,
}
use native.Mathlib.Nat.{le_trans}
use tsdnsreflector.Prelude.Maps.{length-insert, length-insert_known, lookup-In}
use tsdnsreflector.Prelude.Int.{ℤ, pos, pos_part, ltz}
use tsdnsreflector.Prelude.Word.{gt64, gt64-ltb}
use tsdnsreflector.Memory.{
  Usage, GlobalLimits, Monitor, Violation, new_monitor, register_zone, update_cache,
  update_cache_usage, update_buffer, update_query_buffer_usage, check_global_limits, disable,
  enable,
}

-- A call that may change the monitor, with its reading of the clock.
pub data Call : Type 0 where
  register : ℤ → Text → Call
  update_cache_to update_buffer_to : ℤ → Text → ℕ → Call
  check disable_all enable_all : Call

unfoldable pub step : Call → Monitor → Monitor
step (register now name) m = (register_zone now name m).0
step (update_cache_to now name n) m = (update_cache_usage now name n m).0
step (update_buffer_to now name n) m = (update_query_buffer_usage now name n m).0
step check m = (check_global_limits m).0
step disable_all m = disable m
step enable_all m = enable m

unfoldable pub run : List Call → Monitor → Monitor
unfolding step
run [] m = m
run (call ∷ calls) m = run calls (step call m)

pub record IsWithin (u : Usage) : Type 0 where
  pub cache_fits : gt64 u.cache_size u.max_cache_size ≡ false
  pub buffer_fits : gt64 u.query_history u.max_query_buffer ≡ false

abbrev pub AllWithin : Dict Usage → Type 0
AllWithin = All (λ e. IsWithin e.1)

insert-AllWithin :
    (name : Text) (u : Usage) (us : Dict Usage)
    → IsWithin u
    → AllWithin us
    → AllWithin (insert name u us)
unfolding insert
insert-AllWithin name u [] h k = (h, tt)
insert-AllWithin name u ((n, v) ∷ us) h k = elim (Bool-cases (text_eq n name)) [
  | inl same ↦ rw same (h, k.1)
  | inr differ ↦ rw differ (k.0, insert-AllWithin name u us h k.1)
]

lookup-IsWithin :
    (name : Text) (us : Dict Usage) (u : Usage)
    → AllWithin us
    → lookup name us ≡ some u
    → IsWithin u
lookup-IsWithin name us u k h = All-In (λ e. IsWithin e.1) us (lookup-In name u us h) k

-- Non-negative limits, as the server sets them.
pub record IsUsable (g : GlobalLimits) : Type 0 where
  pub cache_limit : g.max_cache_per_zone < 2 ^ 63
  pub buffer_limit : g.max_buffer_per_zone < 2 ^ 63

pub record IsSafe (g : GlobalLimits) (m : Monitor) : Type 0 where
  pub limits_kept : m.global_limits ≡ g
  pub few_zones : length m.zones ≤ pos_part g.max_zone_count
  pub within : AllWithin m.zones

zero_fits : (n : ℕ) → n < 2 ^ 63 → gt64 0 n ≡ false
zero_fits n h = ground (arith, gt64-ltb 0 n)

room_left :
    (m : Monitor) {n : ℤ}
    → m.global_limits.max_zone_count ≡ n
    → not (ltz (pos (length m.zones)) m.global_limits.max_zone_count) ≡ false
    → suc (length m.zones) ≤ pos_part n
room_left m e h = ground arith

module _ (g : GlobalLimits) where
  pub register-IsSafe :
      (now : ℤ) (name : Text) (m : Monitor)
      → IsUsable g
      → IsSafe g m
      → IsSafe g (register_zone now name m).0
  unfolding register_zone
  register-IsSafe now name m h s =
      let full = not (ltz (pos (length m.zones)) m.global_limits.max_zone_count) in
      let u : Usage = record {
        cache_size = 0;
        query_history = 0;
        last_updated = now;
        max_cache_size = m.global_limits.max_cache_per_zone;
        max_query_buffer = m.global_limits.max_buffer_per_zone;
      } in
      let fresh : IsWithin u = record {
        cache_fits = rw s.limits_kept (zero_fits g.max_cache_per_zone h.cache_limit);
        buffer_fits = rw s.limits_kept (zero_fits g.max_buffer_per_zone h.buffer_limit);
      } in
      elim (Bool-cases full) [
        | inl rejected ↦ rw rejected s
        | inr accepted ↦ rw accepted (record {
          limits_kept = s.limits_kept;
          few_zones =
              le_trans (length-insert name u m.zones)
                (room_left m (ap (λ l. l.max_zone_count) s.limits_kept) accepted);
          within = insert-AllWithin name u m.zones fresh s.within;
        })
      ]

  -- Storing a usage that is within its limits, for a zone that is there.
  store-IsSafe :
      (name : Text) (u v : Usage) (m : Monitor)
      → lookup name m.zones ≡ some u
      → IsWithin v
      → IsSafe g m
      → IsSafe g (record m { zones = insert name v m.zones })
  store-IsSafe name u v m at fits s = record {
    limits_kept = s.limits_kept;
    few_zones = rw (length-insert_known name v u m.zones at) s.few_zones;
    within = insert-AllWithin name v m.zones fits s.within;
  }

  violations-IsSafe :
      (m : Monitor) (v : List Violation) → IsSafe g m → IsSafe g (record m { violations = v })
  violations-IsSafe m v s = record {
    limits_kept = s.limits_kept;
    few_zones = s.few_zones;
    within = s.within;
  }

  -- A safe branch of a test, the second one under the test's failure.
  if-IsSafe :
      {A : Type 0} (b : Bool) (x y : Monitor × A)
      → IsSafe g x.0
      → (b ≡ false → IsSafe g y.0)
      → IsSafe g (if b then x else y).0
  if-IsSafe true x y hx hy = hx
  if-IsSafe false x y hx hy = hy refl

  cache_stored-IsSafe :
      (now : ℤ) (name : Text) (n : ℕ) (m : Monitor) (o : Option Usage)
      → lookup name m.zones ≡ o
      → IsSafe g m
      → IsSafe g (update_cache now name n o m).0
  unfolding update_cache
  cache_stored-IsSafe now name n m none e s = s
  cache_stored-IsSafe now name n m (some u) e s =
      if-IsSafe (gt64 n u.max_cache_size) _ _ (violations-IsSafe m _ s) λ fits.
        store-IsSafe name u (record u { cache_size = n; last_updated = now }) m e
          (record {
            cache_fits = fits;
            buffer_fits = (lookup-IsWithin name m.zones u s.within e).buffer_fits;
          })
          s

  buffer_stored-IsSafe :
      (now : ℤ) (name : Text) (n : ℕ) (m : Monitor) (o : Option Usage)
      → lookup name m.zones ≡ o
      → IsSafe g m
      → IsSafe g (update_buffer now name n o m).0
  unfolding update_buffer
  buffer_stored-IsSafe now name n m none e s = s
  buffer_stored-IsSafe now name n m (some u) e s =
      if-IsSafe (gt64 n u.max_query_buffer) _ _ (violations-IsSafe m _ s) λ fits.
        store-IsSafe name u (record u { query_history = n; last_updated = now }) m e
          (record {
            cache_fits = (lookup-IsWithin name m.zones u s.within e).cache_fits;
            buffer_fits = fits;
          })
          s

  pub check-IsSafe : (m : Monitor) → IsSafe g m → IsSafe g (check_global_limits m).0
  unfolding check_global_limits
  check-IsSafe m s =
      if-IsSafe (not m.enabled) _ _ s λ _. if-IsSafe _ _ _ (violations-IsSafe m _ s) λ _. s

  pub update_cache_usage-IsSafe :
      (now : ℤ) (name : Text) (n : ℕ) (m : Monitor)
      → IsSafe g m
      → IsSafe g (update_cache_usage now name n m).0
  unfolding update_cache_usage
  update_cache_usage-IsSafe now name n m s =
      if-IsSafe (not m.enabled) _ _ s λ _. cache_stored-IsSafe now name n m _ refl s

  step-IsSafe : (call : Call) (m : Monitor) → IsUsable g → IsSafe g m → IsSafe g (step call m)
  unfolding step disable enable update_query_buffer_usage
  step-IsSafe (register now name) m h s = register-IsSafe now name m h s
  step-IsSafe (update_cache_to now name n) m h s = update_cache_usage-IsSafe now name n m s
  step-IsSafe (update_buffer_to now name n) m h s =
      if-IsSafe (not m.enabled) _ _ s λ _. buffer_stored-IsSafe now name n m _ refl s
  step-IsSafe check m h s = check-IsSafe m s
  step-IsSafe disable_all m h s = record {
    limits_kept = s.limits_kept;
    few_zones = s.few_zones;
    within = s.within;
  }
  step-IsSafe enable_all m h s = record {
    limits_kept = s.limits_kept;
    few_zones = s.few_zones;
    within = s.within;
  }

  run_from-IsSafe :
      (calls : List Call) (m : Monitor) → IsUsable g → IsSafe g m → IsSafe g (run calls m)
  unfolding run
  run_from-IsSafe [] m h s = s
  run_from-IsSafe (call ∷ calls) m h s =
      run_from-IsSafe calls (step call m) h (step-IsSafe call m h s)

-- Whatever is called on a new monitor with non-negative limits, it has no more zones than its limit
-- allows, and no zone's recorded cache or buffer is above the zone's limit.
pub run-IsSafe :
    (calls : List Call) (g : GlobalLimits) → IsUsable g → IsSafe g (run calls (new_monitor g))
unfolding new_monitor
run-IsSafe calls g h =
    run_from-IsSafe g calls (new_monitor g) h
      (record { limits_kept = refl; few_zones = omega arith; within = tt })
