-- ===== src/Dns/Serve/Translates.antt =====
-- Queries of clients in the tailnet for names of 4via6 zones.
use tsdnsreflector.Prelude.{
  ℕ, ◌≡◌, inl, inr, refl, Text, true, Option, none, some, List, [], ◌∷◌, ◌==◌, lookup,
  if◌then◌else◌, Bool-cases, Distinct, ◌++◌, ◌≢◌, All, ==_iff, ap, arith, ◌∙◌,
}
use tsdnsreflector.Message.{Question, Rr, Msg, type_aaaa}
use tsdnsreflector.Config.Domain.{get_zone}
use tsdnsreflector.Via6.{
  translate_to_via6, translate_from_via6, get_zone_for_domain, resolve_reflected_domain,
  new_translator, Via6Error, ZoneTranslator,
}
use tsdnsreflector.Via6.ThereAndBack.{FourBytes, IsUsable, translate_from_via6-translate_to_via6}
use tsdnsreflector.Config.Validate.Accepts.{DistinctIds}
use tsdnsreflector.Config.Domain.{with_dot}
use tsdnsreflector.Address.{Ip}
use tsdnsreflector.Prelude.Result.{ok, err, Result-cases}
use tsdnsreflector.Dns.{Handler, State, dns_query, record_event, write_msg, store_response}
use tsdnsreflector.Dns.Client.{get_client_ip, is_tailscale_client}
use tsdnsreflector.Dns.Serve.{
  zone_name_of, via6_zone, via6_answer, zone_reply, handle_zone_query, try_cache, serve_question,
  serve_questions, serve_all, serve_dns,
}
use tsdnsreflector.World.{World, Addr}

module _ (w : World) (h : Handler) where
  -- The answer section: for an AAAA query the address, if the translation gives one, and nothing
  -- for any other query.
  abbrev answers : Question → ℕ → List Rr
  answers q asked =
      if q.qtype == type_aaaa
      then via6_answer w h q (translate_to_via6 w h.via6_trans q.name asked).0
      else []

  abbrev Written : Msg → Question → State → Option State → Type 0
  Written r q s o =
      (s' : State) × (o ≡ some s')
      × (s'.written ≡ zone_reply w h r (answers q s.asked) ∷ s.written)
      × (s'.caches ≡ s.caches)

  handle_zone_query-Written :
      (r : Msg) (q : Question) (zone_name : Text) (s : State)
      → lookup zone_name s.caches ≡ none
      → ((handle_zone_query w h r q zone_name s).written
          ≡ zone_reply w h r (answers q s.asked) ∷ s.written)
        × ((handle_zone_query w h r q zone_name s).caches ≡ s.caches)
  unfolding handle_zone_query write_msg record_event store_response
  handle_zone_query-Written r q zone_name s uncached = elim (Bool-cases (q.qtype == type_aaaa)) [
    | inl e ↦ rw (e, uncached) (refl, refl)
    | inr e ↦ rw (e, uncached) (refl, refl)
  ]

  serve_all-Written :
      (client : Option Addr) (r : Msg) (q : Question) (qs : List Question) (s : State)
      → is_tailscale_client client ≡ true
      → via6_zone (get_zone h.config q.name) ≡ true
      → lookup (zone_name_of h (q ∷ qs)) s.caches ≡ none
      → Written r q s (serve_all w h client r (q ∷ qs) s)
  unfolding serve_all serve_questions serve_question try_cache record_event
  serve_all-Written client r q qs s inside via6 uncached =
      let zone_name = zone_name_of h (q ∷ qs) in
      let s0 = record_event (dns_query zone_name (w.dns.type_to_string q.qtype)) s in
      let (wrote, same) = handle_zone_query-Written r q zone_name s0 uncached in
      (handle_zone_query w h r q zone_name s0, rw (uncached, inside, via6) refl, wrote, same)

  -- The records for a question: none if it is not for AAAA records or if the translation fails, and
  -- else one AAAA record of the internet class under the name asked for, with the default TTL. Its
  -- address translates back to the reflected domain of the zone and its IPv4 address.
  pub data IsAnswer (q : Question) (asked : ℕ) : List Rr → Type 0 where
    other_type : q.qtype ≢ 28 → IsAnswer q asked []
    failed :
        (e : Via6Error)
        → q.qtype ≡ 28
        → (translate_to_via6 w h.via6_trans q.name asked).0 ≡ err e
        → IsAnswer q asked []
    translated :
        (ip v4 : Ip) (zt : ZoneTranslator)
        → q.qtype ≡ 28
        → get_zone_for_domain h.via6_trans (with_dot q.name) ≡ some zt
        → (resolve_reflected_domain w zt (with_dot q.name) asked).0 ≡ ok v4
        → translate_from_via6 h.via6_trans ip ≡ ok (zt.rule.reflected_domain, v4)
        → IsAnswer q asked (
            Rr.aaaa (record { name = q.name; rrtype = 28; class = 1; ttl = h.default_ttl }) ip ∷ [])

  -- The reply to `r` is written, authoritative and with such records, and no cache changes.
  pub record Translated (r : Msg) (q : Question) (s s' : State) : Type 0 where
    pub records : List Rr
    pub is_answer : IsAnswer q s.asked records
    pub written :
        let reply = w.dns.set_reply w.dns.new_msg r in
        s'.written
        ≡ record reply { authoritative = true; answer = reply.answer ++ records } ∷ s.written
    pub same_caches : s'.caches ≡ s.caches

  module _ (four : FourBytes w) (made : new_translator w h.config ≡ ok h.via6_trans)
      (names : Distinct h.config.zones) (ids : DistinctIds h.config.zones)
      (usable : All (λ e. IsUsable e.1) h.via6_trans.zones) where
    answers-IsAnswer : (q : Question) (asked : ℕ) → IsAnswer q asked (answers q asked)
    answers-IsAnswer q asked = elim (Bool-cases (q.qtype == type_aaaa)) [
      | inl aaaa ↦
          let t : q.qtype ≡ 28 = (==_iff q.qtype 28).0 aaaa in
          elim (Result-cases (translate_to_via6 w h.via6_trans q.name asked).0) [
            | inl (ip, e) ↦
                let (zt, v4, found, resolved, back) =
                  translate_from_via6-translate_to_via6 w h.config h.via6_trans q.name asked ip four
                    made names ids usable e in
                rw (aaaa, e) (translated ip v4 zt t found resolved back)
            | inr (x, e) ↦ rw (aaaa, e) (failed x t e)
          ]
      | inr other ↦ rw other (other_type (λ t. absurd (ground (arith, other, t))))
    ]

    -- Let the handler's translator be made for its configuration, with distinct zone names and
    -- translate IDs, all its zones having a 4via6 prefix of 16 bytes and an ID below 2 ^ 16, and let
    -- the A records of the servers hold 4 bytes. A query of a client in the tailnet whose first
    -- question is a name of a 4via6 zone that has no cache is answered with one message, the
    -- authoritative reply. To it is added, if the question is for AAAA records and the translation
    -- succeeds, one AAAA record of the internet class under the name asked for, with the default
    -- TTL, whose address `TranslateFromVia6` takes back to the zone's reflected domain and the IPv4
    -- address that this was resolved to, and otherwise nothing. No cache changes.
    pub serve_dns-Translated :
        (remote : Text) (r : Msg) (q : Question) (qs : List Question) (s : State)
        → is_tailscale_client (get_client_ip w remote) ≡ true
        → r.question ≡ q ∷ qs
        → via6_zone (get_zone h.config q.name) ≡ true
        → lookup (zone_name_of h (q ∷ qs)) s.caches ≡ none
        → (s' : State) × (serve_dns w h remote r s ≡ some s') × Translated r q s s'
    unfolding serve_dns zone_reply
    serve_dns-Translated remote r q qs s inside e via6 uncached =
        let client = get_client_ip w remote in
        let (s', is, wrote, same) = serve_all-Written client r q qs s inside via6 uncached in
        (
          s',
          ap (λ all. serve_all w h client r all s) e ∙ is,
          record {
            records = answers q s.asked;
            is_answer = answers-IsAnswer q s.asked;
            written = wrote;
            same_caches = same;
          },
        )
