-- ===== src/Dns/Forward/Writes.antt =====
-- Forwarding writes one message.
use tsdnsreflector.Prelude.{
  ℕ, zero, suc, ◌≡◌, ◌⊎◌, inl, inr, refl, ap, ◌∙◌, Text, Bool, true, false, Option, none, some,
  List, [], ◌∷◌, lookup, if◌then◌else◌, Bool-cases,
}
use tsdnsreflector.Message.{Question, Msg}
use tsdnsreflector.Dns.{
  State, Forwarder, write_msg, record_event, store_response, store_in, store_found, backend_error,
  backend_query,
}
use tsdnsreflector.Dns.Forward.{
  ask, query_backend, answered, try_backends, retry, forward, store_first,
}
use tsdnsreflector.Prelude.Int.{pos_part}
use tsdnsreflector.World.{World}
use tsdnsreflector.Cache.{ZoneCache}

-- One message more is written.
abbrev pub Wrote : State → State → Type 0
Wrote s s' = (m : Msg) × (s'.written ≡ m ∷ s.written)

-- A loop or a step returned, one message having been written, or goes on and has written none.
abbrev pub IsHandled : State → Bool × State → Type 0
IsHandled s p = ((p.0 ≡ true) × Wrote s p.1) ⊎ ((p.0 ≡ false) × (p.1.written ≡ s.written))

-- The step `p`, and `rest` when it goes on.
pub next-IsHandled :
    (s : State) (p rest : Bool × State)
    → IsHandled s p
    → IsHandled p.1 rest
    → IsHandled s (if p.0 then (true, p.1) else rest)
next-IsHandled s p rest (inl (e, wrote)) next = rw e (inl (refl, wrote))
next-IsHandled s p rest (inr (e, same)) (inl (e', (m, wrote))) =
    rw e (inl (e', (m, wrote ∙ ap (λ ms. m ∷ ms) same)))
next-IsHandled s p rest (inr (e, same)) (inr (e', same')) = rw e (inr (e', same' ∙ same))

pub write_msg-Wrote : (m : Msg) (s s' : State) → s'.written ≡ s.written → Wrote s (write_msg m s')
unfolding write_msg
write_msg-Wrote m s s' same = (m, ap (λ ms. m ∷ ms) same)

module _ (w : World) where
  pub store_found-written :
      (o : Option ZoneCache) (zone_name key : Text) (m : Msg) (s : State)
      → (store_found w o zone_name key m s).written ≡ s.written
  unfolding store_in record_event
  store_found-written none zone_name key m s = refl
  store_found-written (some c) zone_name key m s = refl

  store_first-written :
      (zone_name : Text) (qs : List Question) (m : Msg) (s : State)
      → (store_first w zone_name qs m s).written ≡ s.written
  unfolding store_first store_response
  store_first-written zone_name [] m s = refl
  store_first-written zone_name (q ∷ qs) m s =
      store_found-written (lookup zone_name s.caches) zone_name _ m s

  module _ (f : Forwarder) (r : Msg) (zone_name : Text) (cached : Bool) where
    answered-IsHandled :
        (o : Option Msg) (s : State) (fail : Bool × State)
        → IsHandled s fail
        → IsHandled s (answered w f r zone_name cached o s fail)
    unfolding answered write_msg
    answered-IsHandled none s fail h = h
    answered-IsHandled (some m) s fail h = elim (Bool-cases cached) [
      | inl e ↦
          rw e (inl (refl, (m, ap (λ ms. m ∷ ms) (store_first-written zone_name r.question m s))))
      | inr e ↦ rw e (inl (refl, (m, refl)))
    ]

    try_backends-IsHandled :
        (bs : List Text) (s : State) → IsHandled s (try_backends w f r zone_name cached bs s)
    unfolding try_backends query_backend record_event
    try_backends-IsHandled [] s = inr (refl, refl)
    try_backends-IsHandled (b ∷ bs) s = answered-IsHandled (ask w f r b s.asked) _ _ (
        try_backends-IsHandled bs (record s {
          asked = suc s.asked;
          events = backend_error zone_name b ∷ backend_query zone_name b ∷ s.events;
        }))

    retry-IsHandled : (n : ℕ) (s : State) → IsHandled s (retry w f r zone_name cached n s)
    unfolding retry
    retry-IsHandled zero s = inr (refl, refl)
    retry-IsHandled (suc n) s =
        let p = try_backends w f r zone_name cached f.backends s in
        next-IsHandled s p (retry w f r zone_name cached n p.1)
          (try_backends-IsHandled f.backends s) (retry-IsHandled n p.1)

    pub forward-Wrote : (s : State) → Wrote s (forward w f r zone_name cached s)
    unfolding forward
    forward-Wrote s = elim (retry-IsHandled (pos_part f.retries) s) [
      | inl (e, wrote) ↦ rw e wrote
      | inr (e, same) ↦ rw e (write_msg-Wrote _ s _ same)
    ]
