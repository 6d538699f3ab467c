-- ===== src/Tests/Translation.antt =====
-- Tests and examples for the 4via6 translator.
use tsdnsreflector.Prelude.{
  ◌*◌, ◌≡◌, inr, refl, Text, some, [], ◌∷◌, ◌++◌, lookup, insert, Distinct, if◌then◌else◌, codes,
  text_eq, has_prefix, has_suffix, trim_prefix, trim_suffix, arith, All,
}
use tsdnsreflector.Prelude.Int.{pos}
use tsdnsreflector.Prelude.Result.{Result, ok, err}
use tsdnsreflector.Config.Domain.{matches_domain, with_dot, matches_dotted}
use tsdnsreflector.Address.{via6_bytes, via6_prefix, is_4via6_prefix, Ip}
use tsdnsreflector.Config.Domain.{get_zone, scan_zones, scan_domains, consider}
use tsdnsreflector.Address.{copy_at, overlay, to16, to4}
use tsdnsreflector.Via6.{
  find_translator, ask_servers, create_via6_address, parse_timeout, reflect_in, reflect_under,
  resolve_by_servers, resolve_reflected_domain, Translator, ZoneTranslator, Via6Error,
  new_translator, translate_to_via6, translate_from_via6, get_zone_for_domain, target_name,
  not_4via6_address, add_zones, new_zone_translator,
}
use tsdnsreflector.Via6.Target.{target_name-wildcard, target_name-plain}
use tsdnsreflector.Via6.RoundTrip.{translate_from_via6-via6_bytes}
use tsdnsreflector.Prelude.{Bool-cases, inl, ap}
use tsdnsreflector.Via6.ThereAndBack.{FourBytes, IsUsable, translate_from_via6-translate_to_via6}
use tsdnsreflector.Tests.{good_server, config, corp, world, backend, prefix, public_ip}

abbrev pub host : Text
host = codes "db.corp.example."

abbrev pub no_translator : Translator
no_translator = record { zones = []; config = config }

abbrev pub value_of : Result Via6Error Translator → Translator
value_of (ok t) = t
value_of (err e) = no_translator

abbrev pub translator : Translator
unfolding new_translator
translator = value_of (new_translator world config)

pub made : new_translator world config ≡ ok translator
unfolding new_translator translator add_zones new_zone_translator is_4via6_prefix has_prefix
made = refl

abbrev corp_translator : ZoneTranslator
corp_translator = record {
  zone_name = codes "corp";
  zone = corp.1;
  rule = record {
    reflected_domain = codes "site.internal";
    prefix_subnet = codes "fd7a:115c:a1e0:b1a::/64";
    translate_id = 5;
    prefix_network = prefix;
    dns_servers = backend.dns_servers;
    dns_timeout = pos (5 * 1000000000);
  };
}

-- The second server answers with 93.184.216.34.
pub translate_to_via6_test : translate_to_via6 world translator host 0 ≡ (
  ok (
      0xfd ∷ 0x7a ∷ 0x11 ∷ 0x5c ∷ 0xa1 ∷ 0xe0 ∷ 0x0b ∷ 0x1a ∷ 0 ∷ 0 ∷ 0 ∷ 5 ∷ 93 ∷ 184 ∷ 216 ∷ 34
      ∷ []),
  2,
)
unfolding translate_to_via6 get_zone_for_domain get_zone scan_zones translator add_zones
    new_zone_translator is_4via6_prefix has_prefix scan_domains consider matches_domain
    matches_dotted with_dot has_suffix find_translator insert copy_at overlay to16 to4 via6_bytes
    text_eq trim_prefix trim_suffix ask_servers create_via6_address new_translator parse_timeout
    reflect_in reflect_under resolve_by_servers resolve_reflected_domain target_name
translate_to_via6_test = refl

pub names-Distinct : Distinct config.zones
unfolding lookup text_eq
names-Distinct = (refl, (refl, tt))

corp_found : lookup (codes "corp") translator.zones ≡ some corp_translator
unfolding lookup translator add_zones new_zone_translator is_4via6_prefix has_prefix insert text_eq
    parse_timeout
corp_found = refl

translate_from_via6-via6_bytes_example :
    translate_from_via6 translator (via6_bytes prefix 5 public_ip) ≡ (
      if has_prefix prefix via6_prefix
      then ok (codes "site.internal", public_ip)
      else err not_4via6_address)
translate_from_via6-via6_bytes_example =
    translate_from_via6-via6_bytes world config translator (codes "corp") corp_translator public_ip
      made names-Distinct ((inr (λ e. ground arith), tt), (tt, tt)) corp_found refl (omega arith)
      refl

target_name-wildcard_example :
    (w : Text) × (with_dot host ≡ w ++ b'.' ∷ with_dot (codes "corp.example"))
    × (target_name corp_translator host ≡ w ++ b'.' ∷ with_dot (codes "site.internal"))
unfolding matches_domain matches_dotted has_prefix with_dot has_suffix
target_name-wildcard_example =
    target_name-wildcard corp_translator host [] [] tt (codes "corp.example") (λ e. ground arith)
      refl refl

abbrev plain_translator : ZoneTranslator
plain_translator = record corp_translator {
  zone = record corp.1 { domains = codes "corp.example" ∷ [] };
}

target_name-plain_example : target_name plain_translator host ≡ with_dot (codes "site.internal")
unfolding has_prefix matches_domain matches_dotted with_dot has_suffix
target_name-plain_example =
    target_name-plain plain_translator host [] [] tt (codes "corp.example") refl refl refl

abbrev pub translated : Ip
translated =
    0xfd ∷ 0x7a ∷ 0x11 ∷ 0x5c ∷ 0xa1 ∷ 0xe0 ∷ 0x0b ∷ 0x1a ∷ 0 ∷ 0 ∷ 0 ∷ 5 ∷ 93 ∷ 184 ∷ 216 ∷ 34 ∷ []

pub four_bytes : FourBytes world
four_bytes n timeout server m ip h = elim (Bool-cases (text_eq server good_server)) [
  | inl e ↦ let same : public_ip ≡ ip = ground (arith, e, h) in rw⁻¹ same refl
  | inr e ↦ absurd (ground (arith, e, h))
]

pub usable : All (λ e. IsUsable e.1) translator.zones
unfolding translator add_zones new_zone_translator is_4via6_prefix has_prefix insert
usable = ((refl, refl, omega arith), tt)

translate_from_via6-translate_to_via6_example :
    (zt : ZoneTranslator) × (v4 : Ip) × (get_zone_for_domain translator (with_dot host) ≡ some zt)
    × ((resolve_reflected_domain world zt (with_dot host) 0).0 ≡ ok v4)
    × (translate_from_via6 translator translated ≡ ok (zt.rule.reflected_domain, v4))
translate_from_via6-translate_to_via6_example =
    translate_from_via6-translate_to_via6 world config translator host 0 translated four_bytes made
      names-Distinct ((inr (λ e. ground arith), tt), (tt, tt)) usable
      (ap (λ p. p.0) translate_to_via6_test)
