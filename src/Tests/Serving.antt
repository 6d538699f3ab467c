-- ===== src/Tests/Serving.antt =====
-- Tests and examples for the DNS handler.
use tsdnsreflector.Prelude.{
  inl, inr, ℕ, ◌*◌, ◌≡◌, refl, Text, true, false, Option, none, some, List, [], ◌∷◌, lookup, codes,
  text_eq, has_prefix, has_suffix, trim_suffix, arith, ◌≢◌, Bool-cases, ◌==◌,
}
use tsdnsreflector.Message.{Msg, type_a}
use tsdnsreflector.Prelude.Int.{pos}
use tsdnsreflector.Config.Domain.{
  get_zone, scan_zones, scan_domains, consider, matches_domain, matches_dotted, with_dot,
}
use tsdnsreflector.Cache.{get, new_zone_cache_with_name}
use tsdnsreflector.Memory.{new_monitor}
use tsdnsreflector.World.{v4}
use tsdnsreflector.Dns.{Handler, State, Forwarder, store_response}
use tsdnsreflector.Dns.Client.{get_client_ip, is_tailscale_client}
use tsdnsreflector.Dns.Forward.{ask, forward, server_failure, store_first}
use tsdnsreflector.Dns.Forward.Attempts.{forward-answered, forward-silent}
use tsdnsreflector.Dns.Magic.{is_magic_dns_domain, name_error}
use tsdnsreflector.Dns.Serve.{serve_dns, zone_name_of}
use tsdnsreflector.Dns.Forward.Writes.{Wrote}
use tsdnsreflector.Dns.Serve.Writes.{serve_dns-Wrote}
use tsdnsreflector.Dns.Serve.Access.{serve_dns-closed, serve_dns-refused, IsQuiet}
use tsdnsreflector.Cache.Key.{HasNoColon}
use tsdnsreflector.Dns.Hits.{hits, AllShared}
use tsdnsreflector.Dns.Hits.Serve.{serve_dns-no_hit}
use tsdnsreflector.Tests.Caches.{no_colon}
use tsdnsreflector.Tests.{
  lib, type_text, tailnet_ip, config, world, backend, no_msg, answer_to, good_server, tailnet,
  outside,
}

abbrev pub query : Text → Msg
query name = record no_msg { id = 7; question = record { name = name; qtype = type_a } ∷ [] }

abbrev pub forwarder : Forwarder
forwarder = record {
  backends = backend.dns_servers;
  timeout = pos (5 * 1000000000);
  retries = pos 2;
  tsnet = false;
}

abbrev dead_forwarder : Forwarder
dead_forwarder = record forwarder { backends = codes "10.0.0.1:53" ∷ [] }

abbrev pub handler : Handler
handler = record {
  config = config;
  default_ttl = 300;
  via6_trans = record { zones = []; config = config };
  forwarder = forwarder;
  tsnet = false;
}

abbrev pub start : State
start = record {
  caches = (codes "home", new_zone_cache_with_name (pos 2) (pos 10) (codes "home")) ∷ [];
  monitor = new_monitor (record {
    max_zone_count = pos 100;
    max_total_memory = 1000;
    max_cache_per_zone = 100;
    max_buffer_per_zone = 10;
  });
  written = [];
  events = [];
  asked = 0;
  readings = 0;
}

abbrev pub web : Msg
web = query (codes "web.example.")

abbrev org : Msg
org = query (codes "web.org.")

abbrev written_after : Option State → List Msg
written_after none = []
written_after (some s) = s.written

serve_dns_test : written_after (serve_dns world handler tailnet web start) ≡ answer_to web ∷ []
unfolding serve_dns lookup text_eq scan_zones scan_domains consider matches_domain matches_dotted
    has_prefix with_dot has_suffix get new_zone_cache_with_name is_tailscale_client get_client_ip
    is_magic_dns_domain trim_suffix ask store_first store_response
serve_dns_test = refl

forward-answered_example :
    ((forward world forwarder web (codes "home") true start).written ≡ answer_to web ∷ [])
    × ((forward world forwarder web (codes "home") true start).asked ≡ 2)
unfolding ask text_eq
forward-answered_example =
    forward-answered world forwarder web (codes "home") true start (codes "10.0.0.1:53" ∷ [])
      backend.dns_servers good_server (answer_to web) refl (refl, tt) refl

forward-silent_example :
    ((forward world dead_forwarder web (codes "home") true start).written
      ≡ server_failure world dead_forwarder web (codes "home") true ∷ [])
    × ((forward world dead_forwarder web (codes "home") true start).asked ≡ 2)
    × ((forward world dead_forwarder web (codes "home") true start).caches ≡ start.caches)
unfolding ask text_eq
forward-silent_example =
    forward-silent world dead_forwarder web (codes "home") true start (refl, (refl, tt))

serve_dns-Wrote_example :
    (s : State) × (serve_dns world handler tailnet web start ≡ some s) × Wrote start s
serve_dns-Wrote_example =
    serve_dns-Wrote world handler tailnet web
      (record { name = codes "web.example."; qtype = type_a }) [] start refl

from_outside : is_tailscale_client (get_client_ip world outside) ≡ false
unfolding is_tailscale_client get_client_ip text_eq
from_outside = refl

serve_dns-closed_example :
    (s : State) × (serve_dns world handler outside web start ≡ some s) × IsQuiet start s
unfolding get_zone scan_zones scan_domains consider matches_domain matches_dotted has_prefix
    with_dot has_suffix is_magic_dns_domain trim_suffix
serve_dns-closed_example =
    serve_dns-closed world handler outside web start from_outside (λ e. ground arith) refl
      (refl, tt)

serve_dns-refused_example :
    (s : State) × (serve_dns world handler outside org start ≡ some s)
    × IsQuiet start s
    × (s.written ≡ name_error world org ∷ [])
unfolding get_zone scan_zones scan_domains consider matches_domain matches_dotted has_prefix
    with_dot has_suffix lookup zone_name_of is_magic_dns_domain trim_suffix
serve_dns-refused_example =
    serve_dns-refused world handler outside org (record { name = codes "web.org."; qtype = type_a })
      [] start from_outside refl refl refl (refl, tt)

web_answered : (s : State) × (serve_dns world handler tailnet web start ≡ some s) × Wrote start s
web_answered =
    serve_dns-Wrote world handler tailnet web
      (record { name = codes "web.example."; qtype = type_a }) [] start refl

outside_no_type : (t : ℕ) → outside ≢ type_text t
outside_no_type t e = elim (Bool-cases (t == 1)) [
  | inl a ↦ ground arith
  | inr a ↦ elim (Bool-cases (t == 28)) [ inl b ↦ ground arith | inr b ↦ ground arith ]
]

outside_no_colon : HasNoColon outside
outside_no_colon = (
  (λ c. ground arith),
  (
    (λ c. ground arith),
    (
      (λ c. ground arith),
      (
        (λ c. ground arith),
        ((λ c. ground arith), ((λ c. ground arith), ((λ c. ground arith), tt))),
      ),
    ),
  ),
)

serve_dns-no_hit_example :
    (hits web_answered.0.events ≡ hits start.events) × AllShared lib web_answered.0.caches
unfolding new_zone_cache_with_name get_client_ip text_eq
serve_dns-no_hit_example =
    serve_dns-no_hit world handler no_colon (v4 tailnet_ip) outside_no_colon outside_no_type tailnet
      web start web_answered.0 refl (tt, tt) web_answered.1
