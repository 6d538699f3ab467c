-- ===== src/Dns/Forward.antt =====
-- `Forwarder.queryBackend` and `Forwarder.ForwardWithZoneAndCache`. A loop's result tells whether
-- it returned from the method (`true`) or ran to its end.
pub mod Attempts
pub mod Writes
use tsdnsreflector.Prelude.{
  ℕ, zero, suc, Text, Bool, true, false, Option, none, some, List, [], ◌∷◌, if◌then◌else◌,
}
use tsdnsreflector.Prelude.Int.{pos_part}
use tsdnsreflector.Message.{Question, Msg, rcode_server_failure}
use tsdnsreflector.Cache.{cache_key}
use tsdnsreflector.World.{World}
use tsdnsreflector.Dns.{
  State, Forwarder, write_msg, record_event, store_response, backend_query, backend_error,
}

module _ (w : World) where
  -- The answer of a backend; `asked` is the number of exchanges before it.
  unfoldable pub ask : Forwarder → Msg → Text → ℕ → Option Msg
  ask f r backend asked =
      if f.tsnet
      then (if w.dial asked f.timeout backend
          then w.exchange_with_conn asked f.timeout backend r
          else none)
      else w.exchange asked f.timeout backend r

  unfoldable pub query_backend : Forwarder → Msg → Text → State → Option Msg × State
  query_backend f r backend s = (ask f r backend s.asked, record s { asked = suc s.asked })

  -- `if zoneCache != nil && len(r.Question) > 0`; the zone may have no cache.
  unfoldable pub store_first : Text → List Question → Msg → State → State
  store_first zone_name [] m s = s
  store_first zone_name (q ∷ qs) m s =
      store_response w zone_name (cache_key w.dns q.name q.qtype none) m s

  -- `cached` tells whether the zone's cache is passed on, or nil.
  module _ (f : Forwarder) (r : Msg) (zone_name : Text) (cached : Bool) where
    -- After a backend's answer: `fail` is how the loop goes on.
    unfoldable pub answered : Option Msg → State → Bool × State → Bool × State
    answered none s fail = fail
    answered (some resp) s fail =
        (true, write_msg resp (if cached then store_first zone_name r.question resp s else s))

    -- The inner loop.
    unfoldable pub try_backends : List Text → State → Bool × State
    unfolding query_backend answered
    try_backends [] s = (false, s)
    try_backends (backend ∷ backends) s =
        let (resp, s') =
          query_backend f r backend (record_event (backend_query zone_name backend) s) in
        let fail = try_backends backends (record_event (backend_error zone_name backend) s') in
        answered resp s' fail

    -- The outer loop.
    unfoldable pub retry : ℕ → State → Bool × State
    unfolding try_backends
    retry zero s = (false, s)
    retry (suc n) s =
        let (returned, s') = try_backends f.backends s in
        let rest = retry n s' in if returned then (true, s') else rest

    unfoldable pub server_failure : Msg
    server_failure = record (w.dns.set_reply w.dns.new_msg r) { rcode = rcode_server_failure }

    -- `ForwardWithZoneAndCache`
    unfoldable pub forward : State → State
    unfolding retry
    forward s =
        let (returned, s') = retry (pos_part f.retries) s in
        if returned then s' else write_msg server_failure s'
