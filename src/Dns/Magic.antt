-- ===== src/Dns/Magic.antt =====
-- `isMagicDNSDomain`, `resolveHostname` and `handleMagicDNSQuery`. `strings.ToLower` is that of
-- ASCII texts: the names of DNS messages and of peers are such.
pub mod Resolve
use tsdnsreflector.Prelude.{
  ℕ, suc, ◌+◌, Text, Bool, true, false, ◌&&◌, ◌||◌, Option, none, some, List, [], ◌∷◌, ◌++◌, ◌==◌,
  if◌then◌else◌, codes, text_eq, has_prefix, has_suffix, trim_suffix, leb,
}
use tsdnsreflector.Message.{Question, Rr, Msg, type_a, type_aaaa, class_inet, rcode_name_error}
use tsdnsreflector.Prelude.{
  if◌then◌else◌, ◌∷◌, has_suffix, leb, some, text_eq, trim_suffix, codes, ◌&&◌, ◌||◌, has_prefix,
  ◌+◌, ◌++◌,
}
use tsdnsreflector.Dns.{Handler, State, write_msg, List, Msg, Option, Text, ℕ, Bool, none, ◌∷◌}
use tsdnsreflector.Dns.Forward.{forward}
use tsdnsreflector.Config.Domain.{dot}
use tsdnsreflector.World.{World, Addr, v4, v6, Peer, Status}

abbrev lower_byte : ℕ → ℕ
lower_byte c = if leb b'A' c && leb c b'Z' then c + 32 else c

unfoldable pub to_lower : Text → Text
to_lower [] = []
to_lower (c ∷ s) = lower_byte c ∷ to_lower s

-- `strings.ToLower(strings.TrimSuffix(s, "."))`
unfoldable pub plain_name : Text → Text
unfolding to_lower
plain_name s = to_lower (trim_suffix s dot)

unfoldable pub is_magic_dns_domain : Text → Bool
unfolding plain_name
is_magic_dns_domain domain = has_suffix (plain_name domain) (codes ".ts.net")

-- The condition on a peer's name, `hostname` being a plain name.
unfoldable pub is_named : Text → Text → Bool
unfolding plain_name
is_named hostname dns_name =
    let peer_dns = plain_name dns_name in
    text_eq hostname peer_dns || has_prefix peer_dns (hostname ++ dot)

abbrev pub first_if : List Addr → Bool → Option Addr
first_if [] b = none
first_if (ip ∷ ips) b = if b then some ip else none

-- The peer's first address, if it has one and has the name.
unfoldable pub match_peer : Text → Peer → Option Addr
unfolding is_named
match_peer hostname p = first_if p.tailscale_ips (is_named hostname p.dns_name)

abbrev pub or_else : Option Addr → Option Addr → Option Addr
or_else none o = o
or_else (some ip) o = some ip

unfoldable pub match_peers : Text → List Peer → Option Addr
unfolding match_peer
match_peers hostname [] = none
match_peers hostname (p ∷ ps) = or_else (match_peer hostname p) (match_peers hostname ps)

abbrev pub match_self : Text → Option Peer → Option Addr
match_self hostname none = none
match_self hostname (some p) = match_peer hostname p

-- `resolveHostname`; `none` is an error.
unfoldable pub resolve_hostname : Option Status → Text → Option Addr
unfolding match_peers
resolve_hostname none hostname = none
resolve_hostname (some st) hostname =
    let name = plain_name hostname in or_else (match_self name st.self) (match_peers name st.peers)

-- The answer section for an address.
unfoldable pub magic_answer : Question → ℕ → Addr → List Rr
magic_answer q ttl (v4 ip) =
    if q.qtype == type_a
    then Rr.a (record { name = q.name; rrtype = type_a; class = class_inet; ttl = ttl }) ip ∷ []
    else []
magic_answer q ttl (v6 ip) =
    if q.qtype == type_aaaa
    then Rr.aaaa (record { name = q.name; rrtype = type_aaaa; class = class_inet; ttl = ttl }) ip
      ∷ []
    else []

module _ (w : World) where
  abbrev pub name_error : Msg → Msg
  name_error r = w.dns.set_rcode w.dns.new_msg r rcode_name_error

  -- `if len(msg.Answer) == 0 { msg.Rcode = dns.RcodeNameError }`
  abbrev pub error_if_empty : List Rr → Msg → Msg
  error_if_empty [] m = record m { rcode = rcode_name_error }
  error_if_empty (rr ∷ rrs) m = m

  abbrev pub with_answer : List Rr → Msg → Msg
  with_answer rrs m =
      let answer = m.answer ++ rrs in error_if_empty answer (record m { answer = answer })

  unfoldable pub magic_reply : Msg → Question → ℕ → Option Addr → Msg
  unfolding magic_answer
  magic_reply r q ttl none = name_error r
  magic_reply r q ttl (some ip) =
      with_answer (magic_answer q ttl ip)
        (record (w.dns.set_reply w.dns.new_msg r) { authoritative = true })

  -- Without a server or a client the query is forwarded, under the zone name "default".
  unfoldable pub handle_magic_dns_query : Handler → Msg → Question → State → State
  unfolding forward write_msg
  handle_magic_dns_query h r q s =
      let fall_back = forward w h.forwarder r (codes "default") false in
      if h.tsnet
      then (let s' = record s { asked = suc s.asked } in
          if w.local_client s.asked
          then write_msg
              (magic_reply r q h.default_ttl
                (resolve_hostname (w.status s.asked) (trim_suffix q.name dot)))
              s'
          else fall_back s')
      else fall_back s
