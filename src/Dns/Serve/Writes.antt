-- ===== src/Dns/Serve/Writes.antt =====
-- How many messages a query is answered with.
use tsdnsreflector.Prelude.{
  suc, ◌≡◌, ◌↔◌, inl, inr, refl, sym, ap, ◌∙◌, Text, Bool, true, false, not, ◌&&◌, Option, none,
  some, List, [], ◌∷◌, ◌==◌, lookup, if◌then◌else◌, codes, arith, Bool-cases,
}
use tsdnsreflector.Message.{Question, Rr, Msg, type_aaaa}
use mathlib.Core.Path.{subst}
use tsdnsreflector.Config.{ZoneRef}
use tsdnsreflector.Dns.{
  new_forwarder, external_allowed, external_blocked, dns_query, Handler, State, write_msg,
  record_event, store_response,
}
use tsdnsreflector.Dns.Client.{get_client_ip, is_tailscale_client}
use tsdnsreflector.Dns.Magic.{is_magic_dns_domain, handle_magic_dns_query}
use tsdnsreflector.Dns.Serve.{
  zone_name_of, via6_zone, is_open, send_zone_reply, handle_zone_query, cache_answer, look_in,
  try_cache, serve_question, serve_questions, forward_to, finish, finish_first, serve_all,
  serve_dns,
}
use tsdnsreflector.Config.Domain.{get_zone}
use tsdnsreflector.World.{World, Addr}
use tsdnsreflector.Cache.{ZoneCache}
use tsdnsreflector.Dns.Forward.Writes.{
  Wrote, IsHandled, next-IsHandled, write_msg-Wrote, store_found-written, forward-Wrote,
}

module _ (w : World) where
  module _ (h : Handler) where
    handle_magic_dns_query-Wrote :
        (r : Msg) (q : Question) (s : State) → Wrote s (handle_magic_dns_query w h r q s)
    unfolding handle_magic_dns_query
    handle_magic_dns_query-Wrote r q s = elim (Bool-cases h.tsnet) [
      | inl e ↦ rw e (elim (Bool-cases (w.local_client s.asked)) [
        | inl e' ↦ rw e' (write_msg-Wrote _ s (record s { asked = suc s.asked }) refl)
        | inr e' ↦ rw e' (
            forward-Wrote w h.forwarder r (codes "default") false
              (record s { asked = suc s.asked }))
      ])
      | inr e ↦ rw e (forward-Wrote w h.forwarder r (codes "default") false s)
    ]

    send_zone_reply-Wrote :
        (r : Msg) (q : Question) (zone_name : Text) (answer : List Rr) (s' s : State)
        → s'.written ≡ s.written
        → Wrote s (send_zone_reply w h r q zone_name answer s')
    unfolding store_response
    send_zone_reply-Wrote r q zone_name answer s' s same =
        write_msg-Wrote _ s _
          (store_found-written w (lookup zone_name s'.caches) zone_name _ _ s' ∙ same)

    handle_zone_query-Wrote :
        (r : Msg) (q : Question) (zone_name : Text) (s : State)
        → Wrote s (handle_zone_query w h r q zone_name s)
    unfolding handle_zone_query record_event
    handle_zone_query-Wrote r q zone_name s = elim (Bool-cases (q.qtype == type_aaaa)) [
      | inl e ↦ rw e (send_zone_reply-Wrote r q zone_name _ _ s refl)
      | inr e ↦ rw e (send_zone_reply-Wrote r q zone_name _ s s refl)
    ]

    cache_answer-IsHandled :
        (zone_name : Text) (c : ZoneCache) (o : Option Msg) (s : State)
        → IsHandled s (cache_answer w h zone_name c o s)
    unfolding cache_answer record_event write_msg
    cache_answer-IsHandled zone_name c none s = inr (refl, refl)
    cache_answer-IsHandled zone_name c (some m) s = inl (refl, (m, refl))

    look_in-IsHandled :
        (client : Option Addr) (q : Question) (zone_name : Text) (o : Option ZoneCache) (s : State)
        → IsHandled s (look_in w h client q zone_name o s)
    look_in-IsHandled client q zone_name none s = inr (refl, refl)
    look_in-IsHandled client q zone_name (some c) s =
        cache_answer-IsHandled zone_name c _ (record s { readings = suc s.readings })

    serve_question-IsHandled :
        (client : Option Addr) (r : Msg) (zone_name : Text) (q : Question) (s : State)
        → IsHandled s (serve_question w h client r zone_name q s)
    unfolding serve_question try_cache
    serve_question-IsHandled client r zone_name q s =
        let p = try_cache w h client q zone_name s in
        let via6 = handle_zone_query w h r q zone_name p.1 in
        let magic = handle_magic_dns_query w h r q p.1 in
        next-IsHandled s p
          (if is_tailscale_client client && via6_zone (get_zone h.config q.name)
            then (true, via6)
            else if is_magic_dns_domain q.name
            then (true, magic)
            else (false, p.1))
          (look_in-IsHandled client q zone_name (lookup zone_name s.caches) s)
          (elim (Bool-cases (is_tailscale_client client && via6_zone (get_zone h.config q.name))) [
            | inl e ↦ rw e (inl (refl, handle_zone_query-Wrote r q zone_name p.1))
            | inr e ↦ rw e (elim (Bool-cases (is_magic_dns_domain q.name)) [
              | inl e' ↦ rw e' (inl (refl, handle_magic_dns_query-Wrote r q p.1))
              | inr e' ↦ rw e' (inr (refl, refl))
            ])
          ])

    serve_questions-IsHandled :
        (client : Option Addr) (r : Msg) (zone_name : Text) (qs : List Question) (s : State)
        → IsHandled s (serve_questions w h client r zone_name qs s)
    unfolding serve_questions
    serve_questions-IsHandled client r zone_name [] s = inr (refl, refl)
    serve_questions-IsHandled client r zone_name (q ∷ qs) s =
        let p = serve_question w h client r zone_name q s in
        next-IsHandled s p (serve_questions w h client r zone_name qs p.1)
          (serve_question-IsHandled client r zone_name q s)
          (serve_questions-IsHandled client r zone_name qs p.1)

    forward_to-Wrote :
        (tailscale : Bool) (r : Msg) (zone_name : Text) (zone : Option ZoneRef) (s : State)
        → Wrote s (forward_to w h tailscale r zone_name zone s)
    unfolding forward_to record_event
    forward_to-Wrote tailscale r zone_name none s =
        forward-Wrote w h.forwarder r (codes "global") false s
    forward_to-Wrote tailscale r zone_name (some z) s =
        let f = new_forwarder w (h.tsnet && tailscale) z.1.backend in
        elim (Bool-cases (not tailscale)) [
          | inl e ↦ rw e (
              forward-Wrote w f r zone_name true
                (record s { events = external_allowed zone_name ∷ s.events }))
          | inr e ↦ rw e (forward-Wrote w f r zone_name true s)
        ]

    finish-Wrote :
        (tailscale : Bool) (r : Msg) (zone_name : Text) (zone : Option ZoneRef) (s : State)
        → Wrote s (finish w h tailscale r zone_name zone s)
    unfolding finish record_event
    finish-Wrote tailscale r zone_name zone s =
        elim (Bool-cases (not tailscale && not (is_open zone))) [
          | inl e ↦ rw e (write_msg-Wrote _ s (record_event (external_blocked zone_name) s) refl)
          | inr e ↦ rw e (forward_to-Wrote tailscale r zone_name zone s)
        ]

    after_questions-Wrote :
        (tailscale : Bool) (r : Msg) (zone_name : Text) (q : Question) (qs : List Question)
        (s : State) (p : Bool × State)
        → IsHandled s p
        → (s' : State) × ((if p.0
              then some p.1
              else finish_first w h tailscale r zone_name (q ∷ qs) p.1)
            ≡ some s')
          × Wrote s s'
    after_questions-Wrote tailscale r zone_name q qs s p (inl (e, wrote)) = (p.1, rw e refl, wrote)
    after_questions-Wrote tailscale r zone_name q qs s p (inr (e, same)) =
        let (m, wrote) = finish-Wrote tailscale r zone_name (get_zone h.config q.name) p.1 in
        (
          finish w h tailscale r zone_name (get_zone h.config q.name) p.1,
          rw e refl,
          (m, wrote ∙ ap (λ ms. m ∷ ms) same),
        )

    -- A query with a question is answered with exactly one message, whatever the servers, the
    -- caches and Tailscale answer, and `ServeDNS` does not panic.
    pub serve_dns-Wrote :
        (remote : Text) (r : Msg) (q : Question) (qs : List Question) (s : State)
        → r.question ≡ q ∷ qs
        → (s' : State) × (serve_dns w h remote r s ≡ some s') × Wrote s s'
    unfolding serve_dns serve_all record_event
    serve_dns-Wrote remote r q qs s e =
        let client = get_client_ip w remote in
        let zone_name = zone_name_of h (q ∷ qs) in
        let s' = record_event (dns_query zone_name (w.dns.type_to_string q.qtype)) s in
        subst (λ all. (s'' : State) × (serve_all w h client r all s ≡ some s'') × Wrote s s'')
          (sym e)
          (after_questions-Wrote (is_tailscale_client client) r zone_name q qs s'
            (serve_questions w h client r zone_name (q ∷ qs) s')
            (serve_questions-IsHandled client r zone_name (q ∷ qs) s'))

    -- A query without a question makes `ServeDNS` panic, whoever the client is.
    pub serve_dns-no_question :
        (remote : Text) (r : Msg) (s : State)
        → (serve_dns w h remote r s ≡ none) ↔ (r.question ≡ [])
    unfolding serve_dns serve_all serve_questions
    serve_dns-no_question remote r s = (
      empty r.question refl,
      λ e. subst (λ all. serve_all w h (get_client_ip w remote) r all s ≡ none) (sym e) refl,
    )
      where
        empty : (qs : List Question) → r.question ≡ qs → serve_dns w h remote r s ≡ none → qs ≡ []
        empty [] e panics = refl
        empty (q ∷ qs) e panics =
            let (s', answers, wrote) = serve_dns-Wrote remote r q qs s e in ground arith
