-- ===== src/Tests.antt =====
-- A small world and a small configuration for the tests and examples of the children.
mod Names
mod Caches
mod Translation
mod Serving
mod Answering
mod Reloading
mod Storing
mod Living
mod Starting
use tsdnsreflector.Prelude.{
  ℕ, zero, suc, ◌+◌, ◌-◌, ◌≤◌, ◌<◌, ◌≡◌, ◌≢◌, ◌↔◌, ◌⊎◌, inl, inr, refl, sym, ap, ◌∙◌, Text, Bool,
  true, false, not, ◌&&◌, ◌||◌, Option, none, some, List, [], ◌∷◌, ◌++◌, ◌==◌, Dict, lookup, insert,
  erase, Distinct, if◌then◌else◌, codes, text_eq, has_prefix, has_suffix, trim_prefix, trim_suffix,
  length, take, drop, arith, leb, ltb, is_empty, Bool-cases, Option-cases, map, ◌*◌,
}
use tsdnsreflector.Message.{
  Question, Header, Rr, Msg, DnsLib, type_a, type_aaaa, class_inet, rcode_success,
  rcode_server_failure, rcode_name_error,
}
use tsdnsreflector.Prelude.Int.{ℤ, pos}
use tsdnsreflector.Config.{Config, Zone, BackendConfig, GlobalConfig, CacheConfig, ZoneRef}
use tsdnsreflector.World.{World, Addr, v4, v6}
use tsdnsreflector.Address.{Ip}

abbrev pub no_msg : Msg
no_msg = record {
  id = 0;
  flags = 0;
  rcode = 0;
  authoritative = false;
  question = [];
  answer = [];
  ns = [];
  extra = [];
}

abbrev pub type_text : ℕ → Text
type_text t = if t == 1 then codes "A" else if t == 28 then codes "AAAA" else []

abbrev pub lib : DnsLib
lib = record {
  sizeof = record {
    msg = 152;
    question = 24;
    a = 64;
    aaaa = 64;
    cname = 56;
    mx = 64;
    ns = 56;
    ptr = 56;
    soa = 96;
    srv = 64;
    txt = 64;
    cache_entry = 32;
  };
  rr_string = λ rr. [];
  type_to_string = type_text;
  new_msg = no_msg;
  copy = λ m. m;
  set_reply = λ m r. record m { id = r.id; question = r.question };
  set_rcode = λ m r c. record m { id = r.id; question = r.question; rcode = c };
  set_question = λ m name t. record m { question = record { name = name; qtype = t } ∷ [] };
}

abbrev pub good_server : Text
good_server = codes "9.9.9.9:53"

abbrev pub public_ip : Ip
public_ip = 93 ∷ 184 ∷ 216 ∷ 34 ∷ []

abbrev pub answer_to : Msg → Msg
answer_to r = record r {
  answer =
      Rr.a (record { name = codes "x."; rrtype = type_a; class = class_inet; ttl = 60 }) public_ip
      ∷ [];
}

abbrev pub prefix : Ip
prefix = 0xfd ∷ 0x7a ∷ 0x11 ∷ 0x5c ∷ 0xa1 ∷ 0xe0 ∷ 0x0b ∷ 0x1a ∷ 0 ∷ 0 ∷ 0 ∷ 0 ∷ 0 ∷ 0 ∷ 0 ∷ 0 ∷ []

abbrev pub tailnet_ip : Ip
tailnet_ip = 100 ∷ 64 ∷ 0 ∷ 7 ∷ []

abbrev pub outside_ip : Ip
outside_ip = 8 ∷ 8 ∷ 4 ∷ 4 ∷ []

abbrev pub tailnet : Text
tailnet = codes "100.64.0.7"

abbrev pub outside : Text
outside = codes "8.8.4.4"

-- Only the server 9.9.9.9:53 answers; the clock goes on by a second with every reading.
abbrev pub world : World
world = record {
  dns = lib;
  parse_duration = λ t. some (pos (5 * 1000000000));
  parse_ip = λ t. none;
  parse_cidr = λ t. some prefix;
  exchange = λ n timeout server r. if text_eq server good_server then some (answer_to r) else none;
  dial = λ n timeout server. true;
  exchange_with_conn =
      λ n timeout server r. if text_eq server good_server then some (answer_to r) else none;
  clock = λ n. pos (n * 1000000000);
  split_host_port = λ t. some t;
  parse_addr = λ t. some (v4 (if text_eq t tailnet then tailnet_ip else outside_ip));
  ip_text = λ ip. outside;
  local_client = λ n. false;
  status = λ n. none;
}

abbrev pub backend : BackendConfig
backend = record {
  dns_servers = codes "10.0.0.1:53" ∷ good_server ∷ [];
  timeout = codes "5s";
  retries = pos 2;
}

abbrev pub zone : List Text → Option ℕ → Text → Zone
zone domains id reflected = record {
  domains = domains;
  backend = backend;
  reflected_domain = reflected;
  translate_id = id;
  prefix_subnet = codes "fd7a:115c:a1e0:b1a::/64";
  cache = none;
  allow_external_clients = false;
}

abbrev pub corp : ZoneRef
corp = (codes "corp", zone (codes "*.corp.example" ∷ []) (some 5) (codes "site.internal"))

abbrev pub home : ZoneRef
home = (codes "home", zone (codes "example" ∷ []) none [])

abbrev pub global : GlobalConfig
global = record { backend = backend; cache = record { max_size = pos 10; ttl = codes "300s" } }

abbrev pub config : Config
config = record { global = global; zones = home ∷ corp ∷ [] }
