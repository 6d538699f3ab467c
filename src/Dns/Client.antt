-- ===== src/Dns/Client.antt =====
-- `getClientIP` and `isTailscaleClient`.
use Prim.Native.Nat.{bit_and}
use tsdnsreflector.Prelude.{
  ℕ, zero, suc, ◌≤◌, ◌<◌, ◌≡◌, ◌↔◌, ◌⊎◌, ◌&&◌, refl, Text, Bool, true, false, Option, none, some,
  [], ◌∷◌, ◌==◌, text_eq, if◌then◌else◌, arith, leb, ltb, take, not,
}
use tsdnsreflector.Address.{Ip, byte_at}
use tsdnsreflector.World.{World, Addr, v4, v6}

unfoldable pub get_client_ip : World → Text → Option Addr
get_client_ip w remote = elim (w.split_host_port remote) [
  | none ↦ none
  | some host ↦ w.parse_addr host
]

abbrev pub as_slice : Addr → Ip
as_slice (v4 ip) = ip
as_slice (v6 ip) = ip

abbrev v6_loopback : Ip
v6_loopback = 0 ∷ 0 ∷ 0 ∷ 0 ∷ 0 ∷ 0 ∷ 0 ∷ 0 ∷ 0 ∷ 0 ∷ 0 ∷ 0 ∷ 0 ∷ 0 ∷ 0 ∷ 1 ∷ []

abbrev v4_in_6 : Ip
v4_in_6 = 0 ∷ 0 ∷ 0 ∷ 0 ∷ 0 ∷ 0 ∷ 0 ∷ 0 ∷ 0 ∷ 0 ∷ 255 ∷ 255 ∷ []

-- `netip.Addr.IsLoopback`: 127.0.0.0/8, also as IPv4 addresses in IPv6, and ::1.
unfoldable pub is_loopback : Addr → Bool
is_loopback (v4 ip) = byte_at ip 0 == 127
is_loopback (v6 ip) =
    if text_eq (take 12 ip) v4_in_6 then byte_at ip 12 == 127 else text_eq ip v6_loopback

unfoldable pub in_tailscale_range : Addr → Bool
in_tailscale_range (v4 ip) = byte_at ip 0 == 100 && bit_and (byte_at ip 1) 0xC0 == 0x40
in_tailscale_range (v6 ip) =
    byte_at ip 0 == 0xfd
    && byte_at ip 1 == 0x7a
    && byte_at ip 2 == 0x11
    && byte_at ip 3 == 0x5c
    && byte_at ip 4 == 0xa1
    && byte_at ip 5 == 0xe0

unfoldable pub is_tailscale_client : Option Addr → Bool
unfolding is_loopback in_tailscale_range
is_tailscale_client none = false
is_tailscale_client (some addr) = if is_loopback addr then true else in_tailscale_range addr

abbrev in_64_to_127 : ℕ → Bool
in_64_to_127 b = leb 64 b && ltb b 128

-- The mask test and the range agree on the byte `b`.
abbrev agree_on : ℕ → Bool
agree_on b = if in_64_to_127 b then bit_and b 0xC0 == 0x40 else not (bit_and b 0xC0 == 0x40)

agree_up_to : ℕ → Bool
agree_up_to zero = true
agree_up_to (suc limit) = if agree_on limit then agree_up_to limit else false

agree_on_each :
    (b limit : ℕ) → b < limit → agree_up_to limit ≡ true → (bit_and b 0xC0 == 0x40) ≡ in_64_to_127 b
unfolding agree_up_to
agree_on_each b zero below agreed = absurd (omega arith)
agree_on_each b (suc limit) below agreed = ground (arith, agree_on_each b limit)

every_byte : agree_up_to 256 ≡ true
unfolding agree_up_to
every_byte = refl

mask_range : (b : ℕ) → b < 256 → (bit_and b 0xC0 == 0x40) ≡ in_64_to_127 b
mask_range b below = agree_on_each b 256 below every_byte

v4_client :
    (a b : ℕ) (masked : Bool)
    → masked ≡ (leb 64 b && ltb b 128)
    → ((if a == 127 then true else (a == 100 && masked)) ≡ true)
      ↔ ((a ≡ 127) ⊎ ((a ≡ 100) × (64 ≤ b) × (b < 128)))
v4_client a b masked e = ((λ h. ground arith), (λ h. ground arith))

-- An IPv4 client whose second byte is a byte is taken for a Tailscale client exactly when its
-- address lies in 127.0.0.0/8 or in 100.64.0.0/10, that is, from 100.64 to 100.127.
pub is_tailscale_client-v4 :
    (a b c d : ℕ)
    → b < 256
    → (is_tailscale_client (some (v4 (a ∷ b ∷ c ∷ d ∷ []))) ≡ true)
      ↔ ((a ≡ 127) ⊎ ((a ≡ 100) × (64 ≤ b) × (b < 128)))
unfolding is_tailscale_client is_loopback in_tailscale_range
is_tailscale_client-v4 a b c d h = v4_client a b _ (mask_range b h)
