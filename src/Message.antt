-- ===== src/Message.antt =====
-- DNS messages as the program reads and writes them, and what it takes from the package
-- github.com/miekg/dns, which is not part of the repository: the interface `DnsLib`.
use tsdnsreflector.Prelude.{ℕ, Text, Bool, List}

pub record Question : Type 0 where
  pub name : Text
  pub qtype : ℕ

pub record Header : Type 0 where
  pub name : Text
  pub rrtype : ℕ
  pub class : ℕ
  pub ttl : ℕ

-- The record types that the program tells apart, with the fields that it reads.
pub data Rr : Type 0 where
  a aaaa : Header → List ℕ → Rr
  cname mx ns ptr srv : Header → Text → Rr
  soa : Header → Text → Text → Rr
  txt : Header → List Text → Rr
  other : Header → List ℕ → Rr

abbrev pub header : Rr → Header
header (a h ip) = h
header (aaaa h ip) = h
header (cname h t) = h
header (mx h t) = h
header (ns h t) = h
header (ptr h t) = h
header (srv h t) = h
header (soa h n m) = h
header (txt h ts) = h
header (other h d) = h

-- `flags` holds the header bits that the program never reads.
pub record Msg : Type 0 where
  pub id : ℕ
  pub flags : ℕ
  pub rcode : ℕ
  pub authoritative : Bool
  pub question : List Question
  pub answer : List Rr
  pub ns : List Rr
  pub extra : List Rr

-- `unsafe.Sizeof` of the structs.
pub record Sizes : Type 0 where
  pub msg : ℕ
  pub question : ℕ
  pub a : ℕ
  pub aaaa : ℕ
  pub cname : ℕ
  pub mx : ℕ
  pub ns : ℕ
  pub ptr : ℕ
  pub soa : ℕ
  pub srv : ℕ
  pub txt : ℕ
  pub cache_entry : ℕ

pub record DnsLib : Type 0 where
  pub sizeof : Sizes
  pub rr_string : Rr → Text
  pub type_to_string : ℕ → Text
  pub new_msg : Msg
  pub copy : Msg → Msg
  pub set_reply : Msg → Msg → Msg
  pub set_rcode : Msg → Msg → ℕ → Msg
  pub set_question : Msg → Text → ℕ → Msg

abbrev pub type_a : ℕ
type_a = 1

abbrev pub type_aaaa : ℕ
type_aaaa = 28

abbrev pub class_inet : ℕ
class_inet = 1

abbrev pub rcode_success : ℕ
rcode_success = 0

abbrev pub rcode_server_failure : ℕ
rcode_server_failure = 2

abbrev pub rcode_name_error : ℕ
rcode_name_error = 3
