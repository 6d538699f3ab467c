-- ===== src/Dns/Startup/Waiting.antt =====
-- The loop of `Start` that waits for an address on the tailnet.
use tsdnsreflector.Prelude.{
  ℕ, zero, suc, ◌+◌, ◌≤◌, ◌<◌, ◌≡◌, ◌⊎◌, inl, inr, refl, ap, true, false, Option, none, some, arith,
  Bool-cases,
}
use mathlib.Core.Path.{subst}
use tsdnsreflector.Address.{Ip}
use tsdnsreflector.Tailscale.{tailscale_ips}
use tsdnsreflector.Dns.Startup.{Network, no_ip, wait_for_ips}

module _ (net : Network) where
  -- The n-th call reports no address.
  abbrev pub IsSilent : ℕ → Type 0
  IsSilent n = no_ip (tailscale_ips (net.ips n)) ≡ true

  -- No address in the calls from `i` on, below `n`.
  abbrev pub AllSilent : ℕ → ℕ → Type 0
  AllSilent i n = (m : ℕ) → i ≤ m → m < n → IsSilent m

  -- Every call of `left + 1` is made without an address, or one reports the first address.
  abbrev pub Waits : ℕ → ℕ → Option (Option Ip × Option Ip) × ℕ → Type 0
  Waits left i r =
      (AllSilent i (i + suc left) × (r ≡ (none, left)))
      ⊎ ((n : ℕ) × (n ≤ left)
          × AllSilent i (i + n)
          × (no_ip (tailscale_ips (net.ips (i + n))) ≡ false)
          × (r ≡ (some (tailscale_ips (net.ips (i + n))), n)))

  AllSilent-next : (i n n' : ℕ) → n ≡ n' → IsSilent i → AllSilent (suc i) n → AllSilent i n'
  AllSilent-next i n n' same first later m from below =
      let cases : (i ≡ m) ⊎ (suc i ≤ m) = omega arith in
      elim cases [
        | inl here ↦ subst IsSilent here first
        | inr further ↦ later m further (omega arith)
      ]

  AllSilent-none : (i : ℕ) → AllSilent i (i + 0)
  AllSilent-none i m from below = absurd (omega arith)

  AllSilent-one : (i : ℕ) → IsSilent i → AllSilent i (i + 1)
  AllSilent-one i first =
      AllSilent-next i (suc i) (i + 1) (omega arith) first (λ m from below. absurd (omega arith))

  -- The first call reports an address.
  first_found :
      (left i : ℕ)
      → no_ip (tailscale_ips (net.ips i)) ≡ false
      → Waits left i (some (tailscale_ips (net.ips i)), 0)
  first_found left i found =
      let same : i ≡ i + 0 = omega arith in
      inr (
        0,
        (omega arith),
        AllSilent-none i,
        subst (λ n. no_ip (tailscale_ips (net.ips n)) ≡ false) same found,
        ap (λ n. (some (tailscale_ips (net.ips n)), 0)) same,
      )

  later_found :
      (left i : ℕ) (r : Option (Option Ip × Option Ip) × ℕ)
      → IsSilent i
      → Waits left (suc i) r
      → Waits (suc left) i (r.0, suc r.1)
  later_found left i r silent (inl (all, e)) =
      inl (
        AllSilent-next i (suc i + suc left) (i + suc (suc left)) (omega arith) silent all,
        rw e refl,
      )
  later_found left i r silent (inr (n, few, before, found, e)) =
      let same : suc i + n ≡ i + suc n = omega arith in
      inr (
        suc n,
        (omega arith),
        AllSilent-next i (suc i + n) (i + suc n) same silent before,
        subst (λ k. no_ip (tailscale_ips (net.ips k)) ≡ false) same found,
        rw e (ap (λ k. (some (tailscale_ips (net.ips k)), suc n)) same),
      )

  -- With `left + 1` calls to go, the loop that waits for an address ends: without one if none of
  -- those calls reports any, after `left` sleeps, and else with what the first call reports that
  -- reports one, after as many sleeps as there are calls before it.
  pub wait_for_ips-Waits : (left i : ℕ) → Waits left i (wait_for_ips net (suc left) i)
  unfolding wait_for_ips
  wait_for_ips-Waits zero i = elim (Bool-cases (no_ip (tailscale_ips (net.ips i)))) [
    | inl silent ↦ rw silent (inl (AllSilent-one i silent, refl))
    | inr found ↦ rw found (first_found zero i found)
  ]
  wait_for_ips-Waits (suc left) i = elim (Bool-cases (no_ip (tailscale_ips (net.ips i)))) [
    | inl silent ↦ rw silent (
        later_found left i (wait_for_ips net (suc left) (suc i)) silent
          (wait_for_ips-Waits left (suc i)))
    | inr found ↦ rw found (first_found (suc left) i found)
  ]
