-- ===== src/Dns/Serve.antt =====
-- `ServeDNS` and `handleZoneQuery`. A step over a question tells whether the method returned. A
-- method that panics is `none`: `ServeDNS` reads the first question of a message that may have
-- none.
pub mod Writes
pub mod Access
pub mod Translates
use tsdnsreflector.Prelude.{
  suc, Text, Bool, true, false, not, ◌&&◌, Option, none, some, List, [], ◌∷◌, ◌++◌, ◌==◌, lookup,
  if◌then◌else◌, codes,
}
use tsdnsreflector.Message.{Question, Rr, Msg, type_aaaa, class_inet}
use tsdnsreflector.Prelude.{if◌then◌else◌, not, some, ◌&&◌, true}
use tsdnsreflector.Dns.{
  Handler, State, Event, write_msg, record_event, store_response, new_forwarder, Bool, List, Msg,
  Option, Text, codes, dns_query, false, cache_miss, cache_size, external_allowed, cache_hit,
  external_blocked, update_cache_usage, via6_error, via6_translation,
}
use tsdnsreflector.Dns.Client.{get_client_ip, is_tailscale_client, as_slice}
use tsdnsreflector.Dns.Forward.{forward}
use tsdnsreflector.Dns.Magic.{is_magic_dns_domain, handle_magic_dns_query, name_error}
use tsdnsreflector.Config.Domain.{get_zone}
use tsdnsreflector.Config.{ZoneRef, has_4via6}
use tsdnsreflector.World.{World, Addr}
use tsdnsreflector.Prelude.Result.{Result, ok, err}
use tsdnsreflector.Cache
use tsdnsreflector.Memory.{update_cache_usage}
use tsdnsreflector.Address.{Ip}
use tsdnsreflector.Via6.{Via6Error, translate_to_via6}
use tsdnsreflector.Cache.{ZoneCache, cache_key}

abbrev pub name_of : Option ZoneRef → Text
name_of none = codes "default"
name_of (some z) = z.0

-- The zone name that the caches and the metrics are used under: that of the first question.
unfoldable pub zone_name_of : Handler → List Question → Text
unfolding get_zone
zone_name_of h [] = codes "default"
zone_name_of h (q ∷ qs) = name_of (get_zone h.config q.name)

abbrev pub via6_zone : Option ZoneRef → Bool
via6_zone none = false
via6_zone (some z) = has_4via6 z.1

abbrev pub is_open : Option ZoneRef → Bool
is_open none = false
is_open (some z) = z.1.allow_external_clients

module _ (w : World) (h : Handler) where
  -- What the translation puts in the answer section, and the metric.
  abbrev pub via6_answer : Question → Result Via6Error Ip → List Rr
  via6_answer q (err e) = []
  via6_answer q (ok ip) =
      Rr.aaaa
        (record { name = q.name; rrtype = type_aaaa; class = class_inet; ttl = h.default_ttl }) ip
      ∷ []

  abbrev pub via6_event : Text → Result Via6Error Ip → Event
  via6_event zone_name (err e) = via6_error zone_name
  via6_event zone_name (ok ip) = via6_translation zone_name

  unfoldable pub zone_reply : Msg → List Rr → Msg
  zone_reply r answer =
      let m = record (w.dns.set_reply w.dns.new_msg r) { authoritative = true } in
      record m { answer = m.answer ++ answer }

  abbrev pub send_zone_reply : Msg → Question → Text → List Rr → State → State
  send_zone_reply r q zone_name answer s =
      let m = zone_reply r answer in
      write_msg m (store_response w zone_name (cache_key w.dns q.name q.qtype none) m s)

  -- `handleZoneQuery`
  unfoldable pub handle_zone_query : Msg → Question → Text → State → State
  unfolding zone_reply write_msg record_event
  handle_zone_query r q zone_name s =
      let (result, asked') = translate_to_via6 w h.via6_trans q.name s.asked in
      if q.qtype == type_aaaa
      then send_zone_reply r q zone_name (via6_answer q result)
          (record_event (via6_event zone_name result) (record s { asked = asked' }))
      else send_zone_reply r q zone_name [] s

  -- The text of `clientIP.AsSlice()`, nil for an invalid address.
  unfoldable pub key_ip : Option Addr → Option Text
  key_ip none = none
  key_ip (some addr) = some (w.ip_text (as_slice addr))

  -- After the look into the zone's cache `c`. The monitor reads the clock at most once; the count
  -- of readings goes up by one in any case.
  unfoldable pub cache_answer : Text → ZoneCache → Option Msg → State → Bool × State
  unfolding record_event
  cache_answer zone_name c none s = (false, record_event (cache_miss zone_name) s)
  cache_answer zone_name c (some m) s =
      let s' =
        record_event (cache_size zone_name (Cache.size c)) (record_event (cache_hit zone_name) s) in
      let (monitor', e) =
        update_cache_usage (w.clock s'.readings) zone_name c.memory_usage s'.monitor in
      (true, write_msg m (record s' { monitor = monitor'; readings = suc s'.readings }))

  abbrev pub look_in : Option Addr → Question → Text → Option ZoneCache → State → Bool × State
  look_in client q zone_name none s = (false, s)
  look_in client q zone_name (some c) s =
      cache_answer zone_name c
        (Cache.get w.dns (w.clock s.readings) (cache_key w.dns q.name q.qtype (key_ip client)) c)
        (record s { readings = suc s.readings })

  -- The cache lookup at the head of the loop.
  unfoldable pub try_cache : Option Addr → Question → Text → State → Bool × State
  unfolding cache_answer
  try_cache client q zone_name s = look_in client q zone_name (lookup zone_name s.caches) s

  -- One pass of the loop over the questions.
  unfoldable pub serve_question : Option Addr → Msg → Text → Question → State → Bool × State
  unfolding try_cache handle_zone_query
  serve_question client r zone_name q s =
      let (hit, s') = try_cache client q zone_name s in
      if hit
      then (true, s')
      else if is_tailscale_client client && via6_zone (get_zone h.config q.name)
      then (true, handle_zone_query r q zone_name s')
      else if is_magic_dns_domain q.name
      then (true, handle_magic_dns_query w h r q s')
      else (false, s')

  unfoldable pub serve_questions : Option Addr → Msg → Text → List Question → State → Bool × State
  unfolding serve_question
  serve_questions client r zone_name [] s = (false, s)
  serve_questions client r zone_name (q ∷ qs) s =
      let (returned, s') = serve_question client r zone_name q s in
      let rest = serve_questions client r zone_name qs s' in if returned then (true, s') else rest

  -- The forwarding to the zone's own backends, or to the global ones.
  unfoldable pub forward_to : Bool → Msg → Text → Option ZoneRef → State → State
  unfolding forward new_forwarder
  forward_to tailscale r zone_name none s = forward w h.forwarder r (codes "global") false s
  forward_to tailscale r zone_name (some z) s =
      let s' = if not tailscale then record_event (external_allowed zone_name) s else s in
      forward w (new_forwarder w (h.tsnet && tailscale) z.1.backend) r zone_name true s'

  -- The part after the loop, for the zone of the first question.
  unfoldable pub finish : Bool → Msg → Text → Option ZoneRef → State → State
  unfolding forward_to
  finish tailscale r zone_name zone s =
      if not tailscale && not (is_open zone)
      then write_msg (name_error w r) (record_event (external_blocked zone_name) s)
      else forward_to tailscale r zone_name zone s

  abbrev pub finish_first : Bool → Msg → Text → List Question → State → Option State
  finish_first tailscale r zone_name [] s = none
  finish_first tailscale r zone_name (q ∷ qs) s =
      some (finish tailscale r zone_name (get_zone h.config q.name) s)

  abbrev pub query_type : List Question → Text
  query_type [] = []
  query_type (q ∷ qs) = w.dns.type_to_string q.qtype

  -- The body of `ServeDNS` for the questions of `r`.
  unfoldable pub serve_all : Option Addr → Msg → List Question → State → Option State
  unfolding zone_name_of serve_questions finish
  serve_all client r qs s =
      let zone_name = zone_name_of h qs in
      let s' = record_event (dns_query zone_name (query_type qs)) s in
      let (returned, s'') = serve_questions client r zone_name qs s' in
      if returned then some s'' else finish_first (is_tailscale_client client) r zone_name qs s''

  unfoldable pub serve_dns : Text → Msg → State → Option State
  unfolding serve_all
  serve_dns remote r s = serve_all (get_client_ip w remote) r r.question s
