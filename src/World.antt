-- ===== src/World.antt =====
-- What the program calls and does not implement: the DNS package, three parsers of the standard
-- library, the network and the clock. The n-th exchange or reading may answer as it likes, so
-- each takes the number of those before it.
use tsdnsreflector.Prelude.{ℕ, Text, Bool, Option, List}
use tsdnsreflector.Prelude.Int.{ℤ}
use tsdnsreflector.Message.{Msg, DnsLib}
use tsdnsreflector.Address.{Ip}

-- A valid `netip.Addr`: an IPv4 address of 4 bytes or an IPv6 address of 16.
pub data Addr : Type 0 where
  v4 v6 : Ip → Addr

-- `ipnstate.PeerStatus` and `ipnstate.Status`, with the fields that the program reads.
pub record Peer : Type 0 where
  pub dns_name : Text
  pub tailscale_ips : List Addr

pub record Status : Type 0 where
  pub self : Option Peer
  pub peers : List Peer

pub record World : Type 0 where
  pub dns : DnsLib
  -- `time.ParseDuration`, `net.ParseIP`, and the address of the network that `net.ParseCIDR`
  -- returns.
  pub parse_duration : Text → Option ℤ
  pub parse_ip : Text → Option Ip
  pub parse_cidr : Text → Option Ip
  -- `dns.Client.Exchange` with a timeout, to a server; `none` is an error.
  pub exchange : ℕ → ℤ → Text → Msg → Option Msg
  -- `TSNetServer.Dial` and `dns.Client.ExchangeWithConn`.
  pub dial : ℕ → ℤ → Text → Bool
  pub exchange_with_conn : ℕ → ℤ → Text → Msg → Option Msg
  pub clock : ℕ → ℤ
  -- `net.SplitHostPort`, `netip.ParseAddr`, and the text of a `net.IP`.
  pub split_host_port : Text → Option Text
  pub parse_addr : Text → Option Addr
  pub ip_text : Ip → Text
  -- `TSNetServer.LocalClient` (`false` is an error) and `local.Client.Status`.
  pub local_client : ℕ → Bool
  pub status : ℕ → Option Status
