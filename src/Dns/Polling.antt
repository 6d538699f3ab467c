-- ===== src/Dns/Polling.antt =====
-- internal/dns/server.go: `updateTailscaleMetrics`, which polls the Tailscale status, tick by tick
-- until the context is done. The count of the online peers, which nothing reads, is left out.
use tsdnsreflector.Prelude.{
  ℕ, zero, suc, Bool, true, false, ◌&&◌, ◌≡◌, refl, Option, none, some, if◌then◌else◌, arith, ◌+◌,
  ◌≤◌,
}
use tsdnsreflector.World.{World, Status}
use tsdnsreflector.Metrics.{Registry, update_tailscale_status}

-- The metrics, and the calls of `LocalClient` and of `Status` made so far.
pub record Polling : Type 0 where
  pub registry : Registry
  pub clients : ℕ
  pub statuses : ℕ

abbrev pub is_answered : Option Status → Bool
is_answered none = false
is_answered (some status) = true

module _ (w : World) where
  -- One receipt from `ticker.C`.
  unfoldable pub tick : Polling → Polling
  tick p =
      if w.local_client p.clients
      then (let up = is_answered (w.status p.statuses) in
          record {
            registry = update_tailscale_status up p.registry;
            clients = suc p.clients;
            statuses = suc p.statuses;
          })
      else record p { registry = update_tailscale_status false p.registry; clients = suc p.clients }

  unfoldable pub ticks : ℕ → Polling → Polling
  ticks zero p = p
  ticks (suc n) p = tick (ticks n p)

  -- With a TSNet server or not, for the ticks until the context is done.
  unfoldable pub update_tailscale_metrics : Bool → ℕ → Polling → Polling
  unfolding ticks
  update_tailscale_metrics tsnet n p = if tsnet then ticks n p else p

  -- The next tick will find Tailscale up.
  abbrev pub is_up : Polling → Bool
  is_up p = w.local_client p.clients && is_answered (w.status p.statuses)

  tick-registry : (p : Polling) → (tick p).registry ≡ update_tailscale_status (is_up p) p.registry
  unfolding tick
  tick-registry p = ground arith

  update_twice :
      (a b : Bool) (r : Registry)
      → update_tailscale_status a (update_tailscale_status b r) ≡ update_tailscale_status a r
  unfolding update_tailscale_status
  update_twice a b r = refl

  -- After one tick or more only the status gauge differs, and it is 1 if the last tick got the
  -- status from Tailscale, and 0 if that tick met an error, whatever the ticks before it met.
  pub ticks-registry :
      (n : ℕ) (p : Polling)
      → (ticks (suc n) p).registry ≡ update_tailscale_status (is_up (ticks n p)) p.registry
  unfolding ticks
  ticks-registry zero p = tick-registry p
  ticks-registry (suc n) p =
      rw (tick-registry (ticks (suc n) p), ticks-registry n p) (update_twice _ _ p.registry)

  -- Each tick calls `LocalClient`, and `Status` at most once.
  pub ticks-calls :
      (n : ℕ) (p : Polling)
      → ((ticks n p).clients ≡ n + p.clients) × ((ticks n p).statuses ≤ n + p.statuses)
  unfolding ticks tick
  ticks-calls zero p = (omega arith, omega arith)
  ticks-calls (suc n) p = ground (arith, ticks-calls n p)
