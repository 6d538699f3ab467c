-- ===== src/Dns/Timeout.antt =====
-- The three readings of a backend's timeout: `parseTimeout` of internal/dns/server.go and of
-- internal/4via6/translator.go, and ParseTimeout of internal/config/duration.go.
use tsdnsreflector.Prelude.{Text, ◌≡◌, refl, some, arith}
use tsdnsreflector.Prelude.Int.{ℤ}
use tsdnsreflector.World.{World}
use tsdnsreflector.Config.Validate
use tsdnsreflector.Via6
use tsdnsreflector.Dns

module _ (w : World) where
  -- The forwarder and the translator wait equally long for one text.
  parse_timeout-Via6 : (s : Text) → Dns.parse_timeout w s ≡ Via6.parse_timeout w s
  unfolding Dns.parse_timeout Via6.parse_timeout
  parse_timeout-Via6 s = refl

  -- They wait as long as the configuration's reading of the text says, where that accepts it.
  parse_timeout-Validate :
      (s : Text) (timeout : ℤ)
      → Validate.parse_timeout w.parse_duration s ≡ some timeout
      → Dns.parse_timeout w s ≡ timeout
  unfolding Dns.parse_timeout Validate.parse_timeout
  parse_timeout-Validate s timeout h = ground (arith, h)
