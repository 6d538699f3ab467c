-- ===== src/Tests/Answering.antt =====
-- Tests and examples for MagicDNS names and for names of 4via6 zones.
use tsdnsreflector.Dns.Client.{is_tailscale_client, get_client_ip}
use tsdnsreflector.Prelude.{
  ◌≡◌, ◌↔◌, refl, true, none, some, [], ◌∷◌, lookup, codes, text_eq, has_prefix, has_suffix,
  trim_suffix, All, In, inr, arith,
}
use tsdnsreflector.Message.{Question, Msg, Rr, type_aaaa}
use tsdnsreflector.Config.Domain.{
  get_zone, scan_zones, scan_domains, consider, matches_domain, matches_dotted, with_dot,
}
use tsdnsreflector.World.{v4, Peer, Status}
use tsdnsreflector.Dns.{Handler, State, store_response}
use tsdnsreflector.Dns.Magic.{resolve_hostname, is_magic_dns_domain}
use tsdnsreflector.Dns.Magic.Resolve.{
  machines, Answers, resolve_hostname-Answers, resolve_hostname-none_iff,
}
use tsdnsreflector.Dns.Serve.{serve_dns, zone_name_of, handle_zone_query}
use tsdnsreflector.Dns.Serve.Translates.{Translated, serve_dns-Translated}
use tsdnsreflector.Tests.{world, no_msg, tailnet, tailnet_ip}
use tsdnsreflector.Tests.Serving.{handler, start}
use tsdnsreflector.Tests.Translation.{
  translator, host, made, four_bytes, names-Distinct, usable, translated, translate_to_via6_test,
}
use tsdnsreflector.Dns.Magic.Resolve.{IsOther}

abbrev db : Peer
db = record { dns_name = codes "db.tail.ts.net."; tailscale_ips = v4 tailnet_ip ∷ [] }

abbrev status : Status
status = record { self = none; peers = record db { tailscale_ips = [] } ∷ db ∷ [] }

db_found : resolve_hostname (some status) (codes "DB.tail.ts.net") ≡ some (v4 tailnet_ip)
unfolding resolve_hostname text_eq trim_suffix has_suffix
db_found = refl

is_magic_dns_domain_test : is_magic_dns_domain (codes "db.tail.TS.net.") ≡ true
unfolding is_magic_dns_domain has_suffix trim_suffix
is_magic_dns_domain_test = refl

resolve_hostname-Answers_example :
    (p : Peer) × In p (machines status) × Answers (codes "DB.tail.ts.net") (v4 tailnet_ip) p
resolve_hostname-Answers_example =
    resolve_hostname-Answers status (codes "DB.tail.ts.net") (v4 tailnet_ip) db_found

resolve_hostname-none_iff_example :
    (resolve_hostname (some status) (codes "web.tail.ts.net") ≡ none)
    ↔ All (IsOther (codes "web.tail.ts.net")) (machines status)
resolve_hostname-none_iff_example = resolve_hostname-none_iff status (codes "web.tail.ts.net")

-- The name in front of the first dot is enough, but not a part of it.
short_name_test : resolve_hostname (some status) (codes "Db.") ≡ some (v4 tailnet_ip)
unfolding resolve_hostname text_eq trim_suffix has_suffix has_prefix
short_name_test = refl

part_of_name_test : resolve_hostname (some status) (codes "d") ≡ none
unfolding resolve_hostname text_eq trim_suffix has_suffix has_prefix
part_of_name_test = refl

abbrev via6_handler : Handler
via6_handler = record handler { via6_trans = translator }

abbrev aaaa_question : Question
aaaa_question = record { name = host; qtype = type_aaaa }

abbrev aaaa_query : Msg
aaaa_query = record no_msg { question = aaaa_question ∷ [] }

serve_dns-Translated_example :
    (s' : State) × (serve_dns world via6_handler tailnet aaaa_query start ≡ some s')
    × Translated world via6_handler aaaa_query aaaa_question start s'
unfolding is_tailscale_client get_client_ip text_eq get_zone scan_zones scan_domains consider
    matches_domain matches_dotted has_prefix with_dot has_suffix lookup zone_name_of
serve_dns-Translated_example =
    serve_dns-Translated world via6_handler four_bytes made names-Distinct
      ((inr (λ e. ground arith), tt), (tt, tt)) usable tailnet aaaa_query aaaa_question [] start
      refl refl refl refl

-- The translated address is in the reply.
handle_zone_query_test :
    ((handle_zone_query world via6_handler aaaa_query aaaa_question (codes "corp") start).written
      ≡ record aaaa_query {
        authoritative = true;
        answer =
            Rr.aaaa (record { name = host; rrtype = 28; class = 1; ttl = 300 }) translated ∷ [];
      }
        ∷ [])
unfolding handle_zone_query lookup store_response text_eq
handle_zone_query_test = rw translate_to_via6_test refl
