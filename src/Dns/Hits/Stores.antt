-- ===== src/Dns/Hits/Stores.antt =====
-- Forwarding and the other answers store under keys without a client's address, and are no cache
-- hits.
use tsdnsreflector.Prelude.{
  ℕ, zero, suc, ◌≡◌, inl, inr, refl, ◌∙◌, Text, Bool, true, false, Option, none, some, List, [],
  ◌∷◌, ◌==◌, Dict, lookup, insert, if◌then◌else◌, codes, text_eq, All-In, Bool-cases, Option-cases,
}
use tsdnsreflector.Message.{Question, Rr, Msg, type_aaaa}
use tsdnsreflector.Prelude.Int.{pos_part}
use tsdnsreflector.Prelude.Maps.{lookup-In}
use tsdnsreflector.Prelude.Result.{Result, ok, err}
use tsdnsreflector.Address.{Ip}
use tsdnsreflector.Via6.{Via6Error, translate_to_via6}
use tsdnsreflector.Cache.{ZoneCache, cache_key}
use tsdnsreflector.Cache.Keys.{HasKeys, set-HasKeys}
use tsdnsreflector.Dns.{
  Event, State, Forwarder, Handler, write_msg, record_event, store_response, store_in,
  backend_query, backend_error,
}
use tsdnsreflector.Dns.Forward.{
  ask, query_backend, answered, try_backends, retry, forward, store_first,
}
use tsdnsreflector.Dns.Magic.{handle_magic_dns_query}
use tsdnsreflector.Dns.Serve.{send_zone_reply, handle_zone_query, via6_answer, via6_event}
use tsdnsreflector.Dns.Hits.{hits, IsShared, AllShared, Keeps}
use tsdnsreflector.World.{World}

module _ (w : World) where
  pub next-Keeps : (s s' s'' : State) → Keeps w.dns s s' → Keeps w.dns s' s'' → Keeps w.dns s s''
  next-Keeps s s' s'' first second shared =
      let (same, shared') = first shared in
      let (same', shared'') = second shared' in (same' ∙ same, shared'')

  pub branch-Keeps :
      (s : State) (p rest : Bool × State)
      → Keeps w.dns s p.1
      → Keeps w.dns p.1 rest.1
      → Keeps w.dns s (if p.0 then (true, p.1) else rest).1
  branch-Keeps s p rest first second = elim (Bool-cases p.0) [
    | inl e ↦ rw e first
    | inr e ↦ rw e (next-Keeps s p.1 rest.1 first second)
  ]

  insert-AllShared :
      (name : Text) (c : ZoneCache) (cs : Dict ZoneCache)
      → HasKeys (IsShared w.dns) c.entries
      → AllShared w.dns cs
      → AllShared w.dns (insert name c cs)
  unfolding insert
  insert-AllShared name c [] h all = (h, tt)
  insert-AllShared name c ((n, d) ∷ cs) h all = elim (Bool-cases (text_eq n name)) [
    | inl same ↦ rw same (h, all.1)
    | inr differ ↦ rw differ (all.0, insert-AllShared name c cs h all.1)
  ]

  store_found-Keeps :
      (zone_name key : Text) (m : Msg) (s : State)
      → IsShared w.dns key
      → Keeps w.dns s (store_response w zone_name key m s)
  unfolding store_response store_in record_event
  store_found-Keeps zone_name key m s key_shared shared =
      elim (Option-cases (lookup zone_name s.caches)) [
        | inl none_there ↦ rw none_there (refl, shared)
        | inr (c, there) ↦
            let keys =
              All-In (λ x. HasKeys (IsShared w.dns) x.1.entries) s.caches
                (lookup-In zone_name c s.caches there) shared in
            rw there (
              refl,
              insert-AllShared zone_name _ s.caches
                  (set-HasKeys (IsShared w.dns) w.dns (w.clock s.readings)
                    (w.clock (suc s.readings)) key m c key_shared keys)
                  shared,
            )
      ]

  store_first-Keeps :
      (zone_name : Text) (qs : List Question) (m : Msg) (s : State)
      → Keeps w.dns s (store_first w zone_name qs m s)
  unfolding store_first
  store_first-Keeps zone_name [] m s = λ shared. (refl, shared)
  store_first-Keeps zone_name (q ∷ qs) m s =
      store_found-Keeps zone_name (cache_key w.dns q.name q.qtype none) m s (q.name, q.qtype, refl)

  module _ (f : Forwarder) (r : Msg) (zone_name : Text) (cached : Bool) where
    answered-Keeps :
        (o : Option Msg) (s s' : State) (fail : Bool × State)
        → Keeps w.dns s s'
        → Keeps w.dns s fail.1
        → Keeps w.dns s (answered w f r zone_name cached o s' fail).1
    unfolding answered write_msg
    answered-Keeps none s s' fail first second = second
    answered-Keeps (some m) s s' fail first second = elim (Bool-cases cached) [
      | inl e ↦ rw e (
          next-Keeps s s' (store_first w zone_name r.question m s') first
            (store_first-Keeps zone_name r.question m s'))
      | inr e ↦ rw e first
    ]

    try_backends-Keeps :
        (bs : List Text) (s : State) → Keeps w.dns s (try_backends w f r zone_name cached bs s).1
    unfolding try_backends query_backend record_event
    try_backends-Keeps [] s = λ shared. (refl, shared)
    try_backends-Keeps (b ∷ bs) s =
        let s' = record s { asked = suc s.asked; events = backend_query zone_name b ∷ s.events } in
        answered-Keeps (ask w f r b s.asked) s s' _ (λ shared. (refl, shared))
          (try_backends-Keeps bs (record s' { events = backend_error zone_name b ∷ s'.events }))

    retry-Keeps : (n : ℕ) (s : State) → Keeps w.dns s (retry w f r zone_name cached n s).1
    unfolding retry
    retry-Keeps zero s = λ shared. (refl, shared)
    retry-Keeps (suc n) s =
        let p = try_backends w f r zone_name cached f.backends s in
        branch-Keeps s p (retry w f r zone_name cached n p.1) (try_backends-Keeps f.backends s)
          (retry-Keeps n p.1)

    pub forward-Keeps : (s : State) → Keeps w.dns s (forward w f r zone_name cached s)
    unfolding forward write_msg
    forward-Keeps s = elim (Bool-cases (retry w f r zone_name cached (pos_part f.retries) s).0) [
      | inl e ↦ rw e (retry-Keeps (pos_part f.retries) s)
      | inr e ↦ rw e (retry-Keeps (pos_part f.retries) s)
    ]

  module _ (h : Handler) (r : Msg) (q : Question) where
    pub handle_magic_dns_query-Keeps :
        (s : State) → Keeps w.dns s (handle_magic_dns_query w h r q s)
    unfolding handle_magic_dns_query write_msg
    handle_magic_dns_query-Keeps s = elim (Bool-cases h.tsnet) [
      | inl e ↦ rw e (elim (Bool-cases (w.local_client s.asked)) [
        | inl e' ↦ rw e' (λ shared. (refl, shared))
        | inr e' ↦
            rw e' (
              forward-Keeps h.forwarder r (codes "default") false
                (record s { asked = suc s.asked }))
      ])
      | inr e ↦ rw e (forward-Keeps h.forwarder r (codes "default") false s)
    ]

    send_zone_reply-Keeps :
        (zone_name : Text) (answer : List Rr) (s : State)
        → Keeps w.dns s (send_zone_reply w h r q zone_name answer s)
    unfolding write_msg
    send_zone_reply-Keeps zone_name answer s =
        store_found-Keeps zone_name (cache_key w.dns q.name q.qtype none) _ s
          (q.name, q.qtype, refl)

    via6_event-hits :
        (zone_name : Text) (result : Result Via6Error Ip) (es : List Event)
        → hits (via6_event w h zone_name result ∷ es) ≡ hits es
    via6_event-hits zone_name (ok ip) es = refl
    via6_event-hits zone_name (err e) es = refl

    pub handle_zone_query-Keeps :
        (zone_name : Text) (s : State) → Keeps w.dns s (handle_zone_query w h r q zone_name s)
    unfolding handle_zone_query record_event
    handle_zone_query-Keeps zone_name s = elim (Bool-cases (q.qtype == type_aaaa)) [
      | inl e ↦
          let (result, asked') = translate_to_via6 w h.via6_trans q.name s.asked in
          let s' = record s {
            asked = asked';
            events = via6_event w h zone_name result ∷ s.events;
          } in
          rw e (
            next-Keeps s s' (send_zone_reply w h r q zone_name (via6_answer w h q result) s')
              (λ shared. (via6_event-hits zone_name result s.events, shared))
              (send_zone_reply-Keeps zone_name (via6_answer w h q result) s'))
      | inr e ↦ rw e (send_zone_reply-Keeps zone_name [] s)
    ]
