-- ===== src/Dns/Kept/Stores.antt =====
-- The handler's stores, the forwarding and the answers.
use tsdnsreflector.Prelude.{
  ℕ, zero, suc, ◌≡◌, inl, inr, refl, Text, Bool, true, false, Option, none, some, List, [], ◌∷◌,
  ◌==◌, lookup, insert, if◌then◌else◌, codes, Bool-cases, Option-cases,
}
use tsdnsreflector.Message.{Question, Rr, Msg, type_aaaa}
use tsdnsreflector.Prelude.Int.{pos_part}
use tsdnsreflector.Cache
use tsdnsreflector.Cache.{ZoneCache, cache_key}
use tsdnsreflector.Dns.{
  backend_error, backend_query, State, Forwarder, Handler, record_event, store_response, store_in,
}
use tsdnsreflector.Dns.Forward.{
  ask, query_backend, answered, try_backends, retry, forward, store_first,
}
use tsdnsreflector.Dns.Magic.{handle_magic_dns_query}
use tsdnsreflector.Dns.Serve.{handle_zone_query, send_zone_reply}
use tsdnsreflector.Dns.Hits.{IsShared}
use tsdnsreflector.World.{World}
use tsdnsreflector.Dns.Kept.{IsNoError, Steps}
use tsdnsreflector.Dns.{cache_size}
use tsdnsreflector.Dns.Serve.{via6_answer, via6_event}
use tsdnsreflector.Via6.{translate_to_via6, Via6Error}
use tsdnsreflector.Prelude.Result.{Result, ok, err}
use tsdnsreflector.Address.{Ip}
use tsdnsreflector.Prelude.{◌+◌}

module _ (w : World) (R : State → State → Type 0) (steps : Steps w R) where
  pub branch-R :
      (s : State) (p rest : Bool × State)
      → R s p.1
      → R p.1 rest.1
      → R s (if p.0 then (true, p.1) else rest).1
  branch-R s p rest first second = elim (Bool-cases p.0) [
    | inl e ↦ rw e first
    | inr e ↦ rw e (steps.next s p.1 rest.1 first second)
  ]

  store_in-R :
      (zone_name key : Text) (m : Msg) (c : ZoneCache) (s : State)
      → IsShared w.dns key
      → lookup zone_name s.caches ≡ some c
      → R s (store_in w zone_name key m c s)
  unfolding store_in
  store_in-R zone_name key m c s shared there =
      let c' = Cache.set w.dns (w.clock s.readings) (w.clock (suc s.readings)) key m c in
      let s1 : State = record s { caches = insert zone_name c' s.caches } in
      let s2 : State = record s1 { readings = s.readings + 2 } in
      steps.next s s1 _
        (steps.stored (w.clock s.readings) (w.clock (suc s.readings)) zone_name key m c s shared
          there)
        (steps.next s1 s2 _ (steps.counted s.asked (s.readings + 2) s1)
          (steps.recorded (cache_size zone_name (Cache.size c')) s2 tt))

  store_response-R :
      (zone_name key : Text) (m : Msg) (s : State)
      → IsShared w.dns key
      → R s (store_response w zone_name key m s)
  unfolding store_response
  store_response-R zone_name key m s shared = elim (Option-cases (lookup zone_name s.caches)) [
    | inl none_there ↦ rw none_there (steps.same s)
    | inr (c, there) ↦ rw there (store_in-R zone_name key m c s shared there)
  ]

  store_first-R :
      (zone_name : Text) (qs : List Question) (m : Msg) (s : State)
      → R s (store_first w zone_name qs m s)
  unfolding store_first
  store_first-R zone_name [] m s = steps.same s
  store_first-R zone_name (q ∷ qs) m s =
      store_response-R zone_name (cache_key w.dns q.name q.qtype none) m s (q.name, q.qtype, refl)

  module _ (f : Forwarder) (r : Msg) (zone_name : Text) (cached : Bool) where
    answered-R :
        (o : Option Msg) (s s' : State) (fail : Bool × State)
        → R s s'
        → R s fail.1
        → R s (answered w f r zone_name cached o s' fail).1
    unfolding answered
    answered-R none s s' fail first second = second
    answered-R (some m) s s' fail first second = elim (Bool-cases cached) [
      | inl e ↦
          let s2 = store_first w zone_name r.question m s' in
          rw e (
            steps.next s s' _ first
              (steps.next s' s2 _ (store_first-R zone_name r.question m s') (steps.written m s2)))
      | inr e ↦ rw e (steps.next s s' _ first (steps.written m s'))
    ]

    try_backends-R : (bs : List Text) (s : State) → R s (try_backends w f r zone_name cached bs s).1
    unfolding try_backends query_backend ask record_event
    try_backends-R [] s = steps.same s
    try_backends-R (b ∷ bs) s =
        let s0 : State = record s { asked = suc s.asked } in
        let s' = record_event (backend_query zone_name b) s0 in
        let failed = record_event (backend_error zone_name b) s' in
        answered-R (ask w f r b s.asked) s s' _
          (steps.next s s0 s' (steps.counted (suc s.asked) s.readings s)
            (steps.recorded (backend_query zone_name b) s0 tt))
          (steps.next s failed _ (steps.failed zone_name b s) (try_backends-R bs failed))

    retry-R : (n : ℕ) (s : State) → R s (retry w f r zone_name cached n s).1
    unfolding retry
    retry-R zero s = steps.same s
    retry-R (suc n) s =
        let p = try_backends w f r zone_name cached f.backends s in
        branch-R s p (retry w f r zone_name cached n p.1) (try_backends-R f.backends s)
          (retry-R n p.1)

    pub forward-R : (s : State) → R s (forward w f r zone_name cached s)
    unfolding forward
    forward-R s =
        let p = retry w f r zone_name cached (pos_part f.retries) s in
        let tried = retry-R (pos_part f.retries) s in
        elim (Bool-cases p.0) [
          | inl e ↦ rw e tried
          | inr e ↦ rw e (steps.next s p.1 _ tried (steps.written _ p.1))
        ]

  module _ (h : Handler) (r : Msg) (q : Question) where
    pub handle_magic_dns_query-R : (s : State) → R s (handle_magic_dns_query w h r q s)
    unfolding handle_magic_dns_query
    handle_magic_dns_query-R s =
        let s1 : State = record s { asked = suc s.asked } in
        let asked_once = steps.counted (suc s.asked) s.readings s in
        elim (Bool-cases h.tsnet) [
          | inl e ↦ rw e (elim (Bool-cases (w.local_client s.asked)) [
            | inl e' ↦ rw e' (steps.next s s1 _ asked_once (steps.written _ s1))
            | inr e' ↦
                rw e' (
                  steps.next s s1 _ asked_once (forward-R h.forwarder r (codes "default") false s1))
          ])
          | inr e ↦ rw e (forward-R h.forwarder r (codes "default") false s)
        ]

    send_zone_reply-R :
        (zone_name : Text) (answer : List Rr) (s : State)
        → R s (send_zone_reply w h r q zone_name answer s)
    send_zone_reply-R zone_name answer s =
        let key = cache_key w.dns q.name q.qtype none in
        steps.next s _ _ (store_response-R zone_name key _ s (q.name, q.qtype, refl))
          (steps.written _ _)

    via6_event-IsNoError :
        (zone_name : Text) (result : Result Via6Error Ip)
        → IsNoError (via6_event w h zone_name result)
    via6_event-IsNoError zone_name (ok ip) = tt
    via6_event-IsNoError zone_name (err e) = tt

    pub handle_zone_query-R :
        (zone_name : Text) (s : State) → R s (handle_zone_query w h r q zone_name s)
    unfolding handle_zone_query
    handle_zone_query-R zone_name s = elim (Bool-cases (q.qtype == type_aaaa)) [
      | inl e ↦
          let (result, asked') = translate_to_via6 w h.via6_trans q.name s.asked in
          let s1 : State = record s { asked = asked' } in
          let s2 = record_event (via6_event w h zone_name result) s1 in
          rw e (
            steps.next s s1 _ (steps.counted asked' s.readings s) (
              steps.next s1 s2 _
                (steps.recorded (via6_event w h zone_name result) s1
                  (via6_event-IsNoError zone_name result))
                (send_zone_reply-R zone_name (via6_answer w h q result) s2)))
      | inr e ↦ rw e (send_zone_reply-R zone_name [] s)
    ]
