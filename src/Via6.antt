-- ===== src/Via6.antt =====
-- internal/4via6/translator.go: the translator and its zones. `asked` counts the exchanges with DNS
-- servers; a function that talks to them takes the count and returns it.
pub mod Zones
pub mod Target
pub mod RoundTrip
pub mod ThereAndBack
use tsdnsreflector.Prelude.{
  ℕ, suc, Text, Bool, false, ◌==◌, Option, none, some, List, [], ◌∷◌, ◌++◌, Dict, is_empty, length,
  insert, has_prefix, has_suffix, trim_prefix, trim_suffix, text_eq, if◌then◌else◌, ◌*◌,
}
use tsdnsreflector.Prelude.Int.{ℤ, pos}
use tsdnsreflector.Prelude.Result.{Result, ok, err, guard, ◌>>=◌, ◌>>◌}
use tsdnsreflector.Config.{Zone, Config, ZoneRef, has_4via6}
use tsdnsreflector.Config.Defaults.{or_text, default_prefix}
use tsdnsreflector.Config.Domain.{star_dot, with_dot, matches_domain, get_zone}
use tsdnsreflector.Message.{Msg, Rr, rcode_success, type_a}
use tsdnsreflector.Address.{
  Ip, to4, is_4via6_prefix, is_via6_address, via6_bytes, translate_id_of, ipv4_of,
}
use tsdnsreflector.World.{World}

pub data Via6Error : Type 0 where
  zero_translate_id invalid_prefix not_4via6_prefix : Via6Error
  invalid_zone : Text → Via6Error → Via6Error
  no_4via6_zone no_reflected_domain ipv6_not_supported no_ipv4_found : Via6Error
  failed_to_resolve : Via6Error → Via6Error
  invalid_length not_4via6_address unknown_translate_id : Via6Error

pub record Rule : Type 0 where
  pub reflected_domain : Text
  pub prefix_subnet : Text
  pub translate_id : ℕ
  pub prefix_network : Ip
  pub dns_servers : List Text
  pub dns_timeout : ℤ

-- `zone` is a `*config.Zone`; its key in the configuration is `zone_name`.
pub record ZoneTranslator : Type 0 where
  pub zone_name : Text
  pub zone : Zone
  pub rule : Rule

pub record Translator : Type 0 where
  pub zones : Dict ZoneTranslator
  pub config : Config

abbrev pub some_or : Option ℤ → ℤ → ℤ
some_or none d = d
some_or (some n) d = n

abbrev pub id_or_zero : Option ℕ → ℕ
id_or_zero none = 0
id_or_zero (some id) = id

abbrev pub or_error {ℓ} : {A : Type 0} {E : Type ℓ} → Option A → E → Result E A
or_error none e = err e
or_error (some a) e = ok a

abbrev pub first_a : List Rr → Option Ip
first_a [] = none
first_a (Rr.a h ip ∷ rrs) = some ip
first_a (rr ∷ rrs) = first_a rrs

-- The body of the loop over the zone's domains, at the pattern that matches: the base domain of a
-- wildcard is replaced by the reflected domain.
unfoldable pub reflect_under : Text → Text → Text → Text
reflect_under original zone_domain reflected =
    if has_prefix zone_domain star_dot
    then (let base = with_dot (trim_prefix zone_domain star_dot) in
        let full_name = with_dot original in
        if has_suffix full_name base
        then trim_suffix full_name base ++ with_dot reflected
        else reflected)
    else reflected

-- The loop, which ends at the first pattern that matches.
unfoldable pub reflect_in : List Text → Text → Text → Text
unfolding reflect_under
reflect_in [] original reflected = reflected
reflect_in (p ∷ ps) original reflected =
    if matches_domain original p
    then reflect_under original p reflected
    else reflect_in ps original reflected

-- The name that `resolveReflectedDomain` asks the servers for.
unfoldable pub target_name : ZoneTranslator → Text → Text
unfolding reflect_in
target_name zt original = with_dot (reflect_in zt.zone.domains original zt.rule.reflected_domain)

-- `GetZoneForDomain` after the zone is found: the translator with that zone.
unfoldable pub find_translator : ZoneRef → Dict ZoneTranslator → Option ZoneTranslator
find_translator z [] = none
find_translator z ((name, zt) ∷ zts) =
    if text_eq zt.zone_name z.0 then some zt else find_translator z zts

abbrev pub translator_of : Dict ZoneTranslator → Option ZoneRef → Option ZoneTranslator
translator_of zts none = none
translator_of zts (some z) = if has_4via6 z.1 then find_translator z zts else none

unfoldable pub get_zone_for_domain : Translator → Text → Option ZoneTranslator
get_zone_for_domain t domain = translator_of t.zones (get_zone t.config domain)

abbrev pub is_4via6 : Option ZoneRef → Bool
is_4via6 none = false
is_4via6 (some z) = has_4via6 z.1

unfoldable pub should_translate : Translator → Text → Bool
should_translate t domain = is_4via6 (get_zone t.config domain)

-- The loop of `TranslateFromVia6`.
unfoldable pub find_id : ℕ → Dict ZoneTranslator → Option ZoneTranslator
find_id id [] = none
find_id id ((name, zt) ∷ zts) = if zt.rule.translate_id == id then some zt else find_id id zts

unfoldable pub translate_from_via6 : Translator → Ip → Result Via6Error (Text × Ip)
unfolding find_id
translate_from_via6 t ip = do
  guard (length ip == 16) invalid_length
  guard (is_via6_address ip) not_4via6_address
  zt ← or_error (find_id (translate_id_of ip) t.zones) unknown_translate_id
  ok (zt.rule.reflected_domain, ipv4_of ip)

module _ (w : World) where
  open w use {dns, parse_duration, parse_ip, parse_cidr, exchange}

  -- `parseTimeout`: 5 seconds for an empty or a bad text.
  unfoldable pub parse_timeout : Text → ℤ
  parse_timeout s =
      let five = pos (5 * 1000000000) in
      if is_empty s then five else some_or (parse_duration s) five

  unfoldable pub new_zone_translator : Text → Zone → Result Via6Error ZoneTranslator
  new_zone_translator name z = do
    guard (has_4via6 z) zero_translate_id
    let prefix_subnet = or_text z.prefix_subnet default_prefix
    network ← or_error (parse_cidr prefix_subnet) invalid_prefix
    guard (is_4via6_prefix network) not_4via6_prefix
    ok (record {
      zone_name = name;
      zone = z;
      rule = record {
        reflected_domain = z.reflected_domain;
        prefix_subnet = prefix_subnet;
        translate_id = id_or_zero z.translate_id;
        prefix_network = network;
        dns_servers = z.backend.dns_servers;
        dns_timeout = parse_timeout z.backend.timeout;
      };
    })

  abbrev pub wrap_zone : Text → Result Via6Error ZoneTranslator → Result Via6Error ZoneTranslator
  wrap_zone name (ok zt) = ok zt
  wrap_zone name (err e) = err (invalid_zone name e)

  -- The loop of `NewTranslator`; `zones` is the map that it fills.
  unfoldable pub add_zones :
      Dict Zone → Dict ZoneTranslator → Result Via6Error (Dict ZoneTranslator)
  add_zones [] zones = ok zones
  add_zones ((name, z) ∷ zs) zones =
      let add = do
        zt ← wrap_zone name (new_zone_translator name z)
        add_zones zs (insert name zt zones)
      in let skip = add_zones zs zones in if has_4via6 z then add else skip

  unfoldable pub new_translator : Config → Result Via6Error Translator
  new_translator cfg = do
    zones ← add_zones cfg.zones []
    ok (record { zones = zones; config = cfg })

  -- One answer of a server: an A record of a successful answer.
  abbrev pub ipv4_in : Option Msg → Option Ip
  ipv4_in none = none
  ipv4_in (some resp) = if resp.rcode == rcode_success then first_a resp.answer else none

  abbrev pub found_or : Option Ip → ℕ → Option Ip × ℕ → Option Ip × ℕ
  found_or none asked rest = rest
  found_or (some ip) asked rest = (some ip, asked)

  -- The loop over the servers: the first A record of the first server that has one.
  unfoldable pub ask_servers : ℤ → Msg → List Text → ℕ → Option Ip × ℕ
  ask_servers timeout msg [] asked = (none, asked)
  ask_servers timeout msg (server ∷ servers) asked =
      let rest = ask_servers timeout msg servers (suc asked) in
      found_or (ipv4_in (exchange asked timeout server msg)) (suc asked) rest

  abbrev pub v4_only : Option Ip → Result Via6Error Ip
  v4_only none = err ipv6_not_supported
  v4_only (some ip) = ok ip

  unfoldable pub resolve_by_servers : ZoneTranslator → Text → ℕ → Result Via6Error Ip × ℕ
  unfolding ask_servers
  resolve_by_servers zt original asked =
      let msg = dns.set_question dns.new_msg (target_name zt original) type_a in
      let (ip, asked') = ask_servers zt.rule.dns_timeout msg zt.rule.dns_servers asked in
      (or_error ip no_ipv4_found, asked')

  abbrev pub resolve_literal : Option Ip → Result Via6Error Ip × ℕ → ℕ → Result Via6Error Ip × ℕ
  resolve_literal none by_servers asked = by_servers
  resolve_literal (some ip) by_servers asked = (v4_only (to4 ip), asked)

  unfoldable pub resolve_reflected_domain : ZoneTranslator → Text → ℕ → Result Via6Error Ip × ℕ
  resolve_reflected_domain zt original asked =
      resolve_literal (parse_ip zt.rule.reflected_domain) (resolve_by_servers zt original asked)
        asked

  abbrev pub address_of : ZoneTranslator → Result Via6Error Ip → Result Via6Error Ip
  address_of zt (err e) = err (failed_to_resolve e)
  address_of zt (ok ipv4) = ok (via6_bytes zt.rule.prefix_network zt.rule.translate_id ipv4)

  unfoldable pub create_via6_address : ZoneTranslator → Text → ℕ → Result Via6Error Ip × ℕ
  create_via6_address zt domain asked =
      let (ipv4, asked') = resolve_reflected_domain zt domain asked in
      if is_empty zt.rule.reflected_domain
      then (err no_reflected_domain, asked)
      else (address_of zt ipv4, asked')

  abbrev pub translate_in : Option ZoneTranslator → Text → ℕ → Result Via6Error Ip × ℕ
  translate_in none domain asked = (err no_4via6_zone, asked)
  translate_in (some zt) domain asked = create_via6_address zt domain asked

  unfoldable pub translate_to_via6 : Translator → Text → ℕ → Result Via6Error Ip × ℕ
  translate_to_via6 t domain asked =
      let name = with_dot domain in translate_in (get_zone_for_domain t name) name asked
