-- ===== src/Address.antt =====
-- internal/4via6/translator.go: the bytes of 4via6 addresses. A `net.IP` is the list of its bytes.
pub mod RoundTrip
use tsdnsreflector.Prelude.{
  ℕ, zero, suc, ◌+◌, ◌*◌, ◌/◌, ◌%◌, Bool, true, false, ◌==◌, Option, none, some, List, [], ◌∷◌,
  ◌++◌, length, drop, take, has_prefix, if◌then◌else◌,
}

abbrev pub Ip : Type 0
Ip = List ℕ

-- `copy(dst, src)`
unfoldable pub overlay : Ip → Ip → Ip
overlay [] src = []
overlay (d ∷ ds) [] = d ∷ ds
overlay (d ∷ ds) (b ∷ bs) = b ∷ overlay ds bs

-- `copy(dst[offset:], src)`
unfoldable pub copy_at : ℕ → Ip → Ip → Ip
unfolding overlay
copy_at zero dst src = overlay dst src
copy_at (suc n) [] src = []
copy_at (suc n) (d ∷ ds) src = d ∷ copy_at n ds src

-- The prefix of an IPv4 address in 16 bytes.
abbrev pub v4_in_v6_prefix : Ip
v4_in_v6_prefix = 0 ∷ 0 ∷ 0 ∷ 0 ∷ 0 ∷ 0 ∷ 0 ∷ 0 ∷ 0 ∷ 0 ∷ 255 ∷ 255 ∷ []

-- `net.IP.To4` and `net.IP.To16` of the standard library.
unfoldable pub to4 : Ip → Option Ip
to4 ip =
    if length ip == 4
    then some ip
    else if length ip == 16
    then (if has_prefix ip v4_in_v6_prefix then some (drop 12 ip) else none)
    else none

unfoldable pub to16 : Ip → Option Ip
to16 ip =
    if length ip == 4
    then some (v4_in_v6_prefix ++ ip)
    else if length ip == 16
    then some ip
    else none

-- fd7a:115c:a1e0:b1a:
abbrev pub expected_prefix : Ip
expected_prefix = 0xfd ∷ 0x7a ∷ 0x11 ∷ 0x5c ∷ 0xa1 ∷ 0xe0 ∷ 0x0b ∷ 0x1a ∷ []

abbrev pub via6_prefix : Ip
via6_prefix = 0xfd ∷ 0x7a ∷ 0x11 ∷ 0x5c ∷ 0xa1 ∷ 0xe0 ∷ 0x0b ∷ 0x1a ∷ 0 ∷ 0 ∷ []

abbrev pub starts_as_4via6 : Option Ip → Bool
starts_as_4via6 none = false
starts_as_4via6 (some ip) = if length ip == 16 then has_prefix ip expected_prefix else false

-- `is4via6Prefix`, on the network's address; the loop over the bytes is `has_prefix`.
unfoldable pub is_4via6_prefix : Ip → Bool
unfolding to16
is_4via6_prefix ip = starts_as_4via6 (to16 ip)

unfoldable pub is_via6_address : Ip → Bool
is_via6_address ip = if length ip == 16 then has_prefix ip via6_prefix else false

abbrev pub zeros : Ip
zeros = 0 ∷ 0 ∷ 0 ∷ 0 ∷ 0 ∷ 0 ∷ 0 ∷ 0 ∷ 0 ∷ 0 ∷ 0 ∷ 0 ∷ 0 ∷ 0 ∷ 0 ∷ 0 ∷ []

abbrev pub bytes_or_nil : Option Ip → Ip
bytes_or_nil none = []
bytes_or_nil (some ip) = ip

-- The address that `CreateVia6Address` builds: the prefix, the two bytes of the translate ID at 10
-- and 11, and the IPv4 address from 12 on.
unfoldable pub via6_bytes : Ip → ℕ → Ip → Ip
unfolding copy_at to4
via6_bytes prefix id ipv4 =
    copy_at 12
      (copy_at 11 (copy_at 10 (copy_at 0 zeros prefix) ((id / 256) % 256 ∷ [])) (id % 256 ∷ []))
      (bytes_or_nil (to4 ipv4))

abbrev pub byte_at : Ip → ℕ → ℕ
byte_at [] i = 0
byte_at (b ∷ bs) zero = b
byte_at (b ∷ bs) (suc i) = byte_at bs i

-- `(uint16(ip[10]) << 8) | uint16(ip[11])`: the two bytes share no bits.
unfoldable pub translate_id_of : Ip → ℕ
translate_id_of ip = byte_at ip 10 * 256 + byte_at ip 11

-- `ip[12:16]`
unfoldable pub ipv4_of : Ip → Ip
ipv4_of ip = take 4 (drop 12 ip)
