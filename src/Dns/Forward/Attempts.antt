-- ===== src/Dns/Forward/Attempts.antt =====
-- Forwarding against the flat list of its attempts.
use tsdnsreflector.Dns.Forward.{
  ask, try_backends, retry, forward, store_first, query_backend, answered, server_failure, pos_part,
  Question,
}
use tsdnsreflector.Dns.{
  State, Forwarder, record_event, write_msg, Msg, ◌∷◌, backend_error, backend_query, store_response,
  store_in,
}
use tsdnsreflector.World.{World}
use tsdnsreflector.Prelude.{
  zero, suc, arith, length, Option-cases, inl, inr, ℕ, List, Text, Bool, [], ◌∷◌, if◌then◌else◌,
  ◌++◌, ◌≡◌, false, none, refl, true, ◌+◌, arith, suc, some, ap, Bool-cases, lookup,
}

-- The backends, `n` times over.
abbrev pub schedule : ℕ → List Text → List Text
schedule zero backends = []
schedule (suc n) backends = backends ++ schedule n backends

module _ (w : World) (f : Forwarder) (r : Msg) where
  -- None of the attempts is answered, the first of them being exchange number `asked`.
  abbrev pub IsSilent : List Text → ℕ → Type 0
  IsSilent [] asked = Unit
  IsSilent (backend ∷ backends) asked =
      (ask w f r backend asked ≡ none) × IsSilent backends (suc asked)

  module _ (zone_name : Text) (cached : Bool) where
    abbrev try_all : List Text → State → Bool × State
    try_all = try_backends w f r zone_name cached

    abbrev then_all : List Text → Bool × State → Bool × State
    then_all cs p = if p.0 then (true, p.1) else try_all cs p.1

    try_all-append :
        (bs cs : List Text) (s : State) → try_all (bs ++ cs) s ≡ then_all cs (try_all bs s)
    unfolding try_backends answered query_backend ask record_event
    try_all-append [] cs s = refl
    try_all-append (b ∷ bs) cs s = elim (Option-cases (ask w f r b s.asked)) [
      | inl e ↦ rw e (try_all-append bs cs _)
      | inr (m, e) ↦ rw e
    ]

    retry-schedule :
        (n : ℕ) (s : State) → retry w f r zone_name cached n s ≡ try_all (schedule n f.backends) s
    unfolding retry
    retry-schedule zero s = refl
    retry-schedule (suc n) s = rw (
      try_all-append f.backends (schedule n f.backends) s,
      retry-schedule n (try_all f.backends s).1,
    )

    -- What the events of failed attempts do to a state.
    abbrev pub after : List Text → State → State
    after [] s = s
    after (b ∷ bs) s = after bs (
        record_event (backend_error zone_name b)
          (query_backend w f r b (record_event (backend_query zone_name b) s)).1)

    try_all-silent :
        (bs : List Text) (s : State) → IsSilent bs s.asked → try_all bs s ≡ (false, after bs s)
    unfolding try_backends answered query_backend ask record_event
    try_all-silent [] s h = refl
    try_all-silent (b ∷ bs) s h = rw (h.0) (try_all-silent bs _ h.1)

    after-asked : (bs : List Text) (s : State) → (after bs s).asked ≡ length bs + s.asked
    unfolding query_backend record_event
    after-asked [] s = omega arith
    after-asked (b ∷ bs) s = rw (after-asked bs) (omega arith)

    after-written : (bs : List Text) (s : State) → (after bs s).written ≡ s.written
    unfolding query_backend record_event
    after-written [] s = refl
    after-written (b ∷ bs) s = rw (after-written bs)

    after-caches : (bs : List Text) (s : State) → (after bs s).caches ≡ s.caches
    unfolding query_backend record_event
    after-caches [] s = refl
    after-caches (b ∷ bs) s = rw (after-caches bs)

    store_first-asked :
        (qs : List Question) (m : Msg) (s : State)
        → ((store_first w zone_name qs m s).asked ≡ s.asked)
          × ((store_first w zone_name qs m s).written ≡ s.written)
    unfolding store_first store_response store_in record_event
    store_first-asked [] m s = (refl, refl)
    store_first-asked (q ∷ qs) m s = elim (Option-cases (lookup zone_name s.caches)) [
      | inl e ↦ rw e (refl, refl)
      | inr (c, e) ↦ rw e (refl, refl)
    ]

    kept :
        (qs : List Question) (m : Msg) (s : State)
        → ((if cached then store_first w zone_name qs m s else s).asked ≡ s.asked)
          × ((if cached then store_first w zone_name qs m s else s).written ≡ s.written)
    kept qs m s = elim (Bool-cases cached) [
      | inl e ↦ rw e (store_first-asked qs m s)
      | inr e ↦ rw e (refl, refl)
    ]

    -- What an answered attempt leaves.
    abbrev IsAnswer : Msg → State → Bool × State → Type 0
    IsAnswer m s p = (p.0 ≡ true) × (p.1.written ≡ m ∷ s.written) × (p.1.asked ≡ suc s.asked)

    try_all-answered :
        (b : Text) (bs : List Text) (m : Msg) (s : State)
        → ask w f r b s.asked ≡ some m
        → IsAnswer m s (try_all (b ∷ bs) s)
    unfolding try_backends answered query_backend record_event write_msg
    try_all-answered b bs m s e =
        let s' = record s { asked = suc s.asked; events = backend_query zone_name b ∷ s.events } in
        let (same_asked, same_written) = kept r.question m s' in
        rw (e, same_asked, same_written) (refl, refl, refl)

    -- Let the attempts of a forwarding, the backends as often as there are retries, be some that
    -- are not answered and then one that is. Then the client is written that answer and nothing
    -- else, and the exchanges made are those attempts.
    pub forward-answered :
        (s : State) (before rest : List Text) (backend : Text) (m : Msg)
        → schedule (pos_part f.retries) f.backends ≡ before ++ backend ∷ rest
        → IsSilent before s.asked
        → ask w f r backend (length before + s.asked) ≡ some m
        → ((forward w f r zone_name cached s).written ≡ m ∷ s.written)
          × ((forward w f r zone_name cached s).asked ≡ suc (length before) + s.asked)
    unfolding forward
    forward-answered s before rest backend m e silent answer =
        let run = retry-schedule (pos_part f.retries) s in
        let s' = after before s in
        let now : ask w f r backend s'.asked ≡ some m = rw (after-asked before s, answer) in
        let (returned, wrote, count) = try_all-answered backend rest m s' now in
        rw
          (
            run,
            e,
            try_all-append before (backend ∷ rest) s,
            try_all-silent before s silent,
            returned,
            wrote,
            count,
          )
          (ap (λ ms. m ∷ ms) (after-written before s), rw (after-asked before s) (omega arith))

    -- If no attempt is answered, the client is written a server failure and nothing else, every
    -- backend has been asked as often as there are retries, and the caches are unchanged.
    pub forward-silent :
        (s : State)
        → IsSilent (schedule (pos_part f.retries) f.backends) s.asked
        → ((forward w f r zone_name cached s).written
            ≡ server_failure w f r zone_name cached ∷ s.written)
          × ((forward w f r zone_name cached s).asked
              ≡ length (schedule (pos_part f.retries) f.backends) + s.asked)
          × ((forward w f r zone_name cached s).caches ≡ s.caches)
    unfolding forward write_msg
    forward-silent s silent =
        let all = schedule (pos_part f.retries) f.backends in
        let run = retry-schedule (pos_part f.retries) s in
        rw (run, try_all-silent all s silent)
          (rw (after-written all s, after-asked all s, after-caches all s) (refl, refl, refl))
