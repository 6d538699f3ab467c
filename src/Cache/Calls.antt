-- ===== src/Cache/Calls.antt =====
-- Sequences of calls on one cache, as the mutex orders them.
use tsdnsreflector.Prelude.{List, [], ◌∷◌, Text, Distinct}
use tsdnsreflector.Prelude.Int.{ℤ}
use tsdnsreflector.Message.{Msg, DnsLib}
use tsdnsreflector.Cache.Expiry.{evict_expired-Distinct, set-Distinct}
use tsdnsreflector.Cache.{ZoneCache, set, cleanup_expired, clear}

-- A call that changes a cache, with its readings of the clock.
pub data Call : Type 0 where
  set_at : (evicting storing : ℤ) → Text → Msg → Call
  cleanup_at : ℤ → Call
  clear_all : Call

module _ (lib : DnsLib) where
  unfoldable pub step : Call → ZoneCache → ZoneCache
  step (set_at evicting storing key m) c = set lib evicting storing key m c
  step (cleanup_at now) c = cleanup_expired lib now c
  step clear_all c = clear c

  unfoldable pub run : List Call → ZoneCache → ZoneCache
  run [] c = c
  run (call ∷ calls) c = run calls (step call c)

  pub step-Distinct :
      (call : Call) (c : ZoneCache) → Distinct c.entries → Distinct (step call c).entries
  unfolding step cleanup_expired clear
  step-Distinct (set_at evicting storing key m) c d = set-Distinct lib evicting storing key m c d
  step-Distinct (cleanup_at now) c d = evict_expired-Distinct lib now c d
  step-Distinct clear_all c d = tt
