-- ===== src/Dns/Hits/Serve.antt =====
-- The cache lookup of `ServeDNS` for a client with a valid address.
use tsdnsreflector.Prelude.{
  ℕ, ◌≡◌, ◌≢◌, inl, inr, refl, sym, ap, ◌∙◌, Text, Bool, true, false, not, ◌&&◌, Option, none, some,
  List, [], ◌∷◌, lookup, if◌then◌else◌, codes, All-In, arith, Bool-cases, Option-cases,
}
use tsdnsreflector.Message.{Question, Msg}
use mathlib.Core.Path.{subst}
use tsdnsreflector.Cache.{ZoneCache, cache_key, get}
use tsdnsreflector.Cache.Key.{HasNoColon, cache_key-client}
use tsdnsreflector.Cache.Keys.{HasKeys, lookup-HasKeys}
use tsdnsreflector.Config.{ZoneRef}
use tsdnsreflector.Config.Domain.{get_zone}
use tsdnsreflector.Dns.{
  dns_query, external_allowed, State, Handler, write_msg, record_event, new_forwarder,
  external_allowed, ℤ,
}
use tsdnsreflector.Dns.Client.{get_client_ip, is_tailscale_client, as_slice}
use tsdnsreflector.Dns.Magic.{is_magic_dns_domain, handle_magic_dns_query}
use tsdnsreflector.Dns.Serve.{
  zone_name_of, via6_zone, is_open, handle_zone_query, key_ip, cache_answer, look_in, try_cache,
  serve_question, serve_questions, forward_to, finish, serve_all, serve_dns,
}
use tsdnsreflector.Dns.Hits.{hits, IsShared, AllShared, Keeps}
use tsdnsreflector.Dns.Hits.Stores.{
  next-Keeps, branch-Keeps, forward-Keeps, handle_magic_dns_query-Keeps, handle_zone_query-Keeps,
}
use tsdnsreflector.Prelude.Maps.{lookup-In}
use tsdnsreflector.World.{World, Addr}

module _ (w : World) (h : Handler) where
  forward_to-Keeps :
      (tailscale : Bool) (r : Msg) (zone_name : Text) (found : Option ZoneRef) (s : State)
      → Keeps w.dns s (forward_to w h tailscale r zone_name found s)
  unfolding forward_to record_event
  forward_to-Keeps tailscale r zone_name none s =
      forward-Keeps w h.forwarder r (codes "global") false s
  forward_to-Keeps tailscale r zone_name (some z) s =
      let f = new_forwarder w (h.tsnet && tailscale) z.1.backend in
      elim (Bool-cases (not tailscale)) [
        | inl e ↦
            let s' = record s { events = external_allowed zone_name ∷ s.events } in
            rw e (forward-Keeps w f r zone_name true s')
        | inr e ↦ rw e (forward-Keeps w f r zone_name true s)
      ]

  finish-Keeps :
      (tailscale : Bool) (r : Msg) (zone_name : Text) (found : Option ZoneRef) (s : State)
      → Keeps w.dns s (finish w h tailscale r zone_name found s)
  unfolding finish write_msg record_event
  finish-Keeps tailscale r zone_name found s =
      elim (Bool-cases (not tailscale && not (is_open found))) [
        | inl e ↦ rw e (λ shared. (refl, shared))
        | inr e ↦ rw e (forward_to-Keeps tailscale r zone_name found s)
      ]

  module _ (colon_free : (t : ℕ) → HasNoColon (w.dns.type_to_string t)) (addr : Addr)
      (no_colon : HasNoColon (w.ip_text (as_slice addr)))
      (no_type : (t : ℕ) → w.ip_text (as_slice addr) ≢ w.dns.type_to_string t) where
    -- No entry is found under a key with the address.
    get-missed :
        (now : ℤ) (q : Question) (c : ZoneCache)
        → HasKeys (IsShared w.dns) c.entries
        → get w.dns now (cache_key w.dns q.name q.qtype (key_ip w h (some addr))) c ≡ none
    unfolding get key_ip
    get-missed now q c keys =
        let key = cache_key w.dns q.name q.qtype (some (w.ip_text (as_slice addr))) in
        elim (Option-cases (lookup key c.entries)) [
          | inl e ↦ rw e refl
          | inr (entry, e) ↦
              let (name, t, same) = lookup-HasKeys (IsShared w.dns) key entry c.entries keys e in
              absurd (
                cache_key-client w.dns colon_free q.name name (w.ip_text (as_slice addr)) q.qtype t
                  no_colon (no_type t) same)
        ]

    look_in-missed :
        (q : Question) (zone_name : Text) (o : Option ZoneCache) (s : State)
        → ((c : ZoneCache) → o ≡ some c → HasKeys (IsShared w.dns) c.entries)
        → ((look_in w h (some addr) q zone_name o s).0 ≡ false)
          × Keeps w.dns s (look_in w h (some addr) q zone_name o s).1
    unfolding cache_answer record_event
    look_in-missed q zone_name none s keyed = (refl, λ shared. (refl, shared))
    look_in-missed q zone_name (some c) s keyed =
        rw (get-missed (w.clock s.readings) q c (keyed c refl)) (refl, λ shared. (refl, shared))

    module _ (r : Msg) (zone_name : Text) where
      serve_question-Keeps :
          (q : Question) (s : State)
          → Keeps w.dns s (serve_question w h (some addr) r zone_name q s).1
      unfolding serve_question try_cache
      serve_question-Keeps q s shared =
          let keyed : (c : ZoneCache)
              → lookup zone_name s.caches ≡ some c
              → HasKeys (IsShared w.dns) c.entries =
            λ c e.
              All-In (λ x. HasKeys (IsShared w.dns) x.1.entries) s.caches
                (lookup-In zone_name c s.caches e) shared in
          let p = look_in w h (some addr) q zone_name (lookup zone_name s.caches) s in
          let (missed, keeps) = look_in-missed q zone_name (lookup zone_name s.caches) s keyed in
          rw missed
            (elim (Bool-cases
              (is_tailscale_client (some addr) && via6_zone (get_zone h.config q.name))) [
                | inl e ↦ rw e (
                    next-Keeps w s p.1 (handle_zone_query w h r q zone_name p.1) keeps
                      (handle_zone_query-Keeps w h r q zone_name p.1) shared)
                | inr e ↦ rw e (elim (Bool-cases (is_magic_dns_domain q.name)) [
                  | inl e' ↦ rw e' (
                      next-Keeps w s p.1 (handle_magic_dns_query w h r q p.1) keeps
                        (handle_magic_dns_query-Keeps w h r q p.1) shared)
                  | inr e' ↦ rw e' (keeps shared)
                ])
              ])

      serve_questions-Keeps :
          (qs : List Question) (s : State)
          → Keeps w.dns s (serve_questions w h (some addr) r zone_name qs s).1
      unfolding serve_questions
      serve_questions-Keeps [] s = λ shared. (refl, shared)
      serve_questions-Keeps (q ∷ qs) s =
          let p = serve_question w h (some addr) r zone_name q s in
          branch-Keeps w s p (serve_questions w h (some addr) r zone_name qs p.1)
            (serve_question-Keeps q s) (serve_questions-Keeps qs p.1)

    after-Keeps :
        (s s' : State) (p : Bool × State) (rest : State)
        → Keeps w.dns s p.1
        → Keeps w.dns p.1 rest
        → (if p.0 then some p.1 else some rest) ≡ some s'
        → Keeps w.dns s s'
    after-Keeps s s' p rest first second e = elim (Bool-cases p.0) [
      | inl b ↦ let same : p.1 ≡ s' = ground arith in subst (Keeps w.dns s) same first
      | inr b ↦
          let same : rest ≡ s' = ground arith in
          subst (Keeps w.dns s) same (next-Keeps w s p.1 rest first second)
    ]

    serve_all-Keeps :
        (r : Msg) (qs : List Question) (s s' : State)
        → serve_all w h (some addr) r qs s ≡ some s'
        → Keeps w.dns s s'
    unfolding serve_all serve_questions record_event
    serve_all-Keeps r [] s s' e = absurd (ground arith)
    serve_all-Keeps r (q ∷ qs) s s' e =
        let zone_name = zone_name_of h (q ∷ qs) in
        let s0 = record_event (dns_query zone_name (w.dns.type_to_string q.qtype)) s in
        let p = serve_questions w h (some addr) r zone_name (q ∷ qs) s0 in
        let tailscale = is_tailscale_client (some addr) in
        after-Keeps s s' p (finish w h tailscale r zone_name (get_zone h.config q.name) p.1)
          (serve_questions-Keeps r zone_name (q ∷ qs) s0)
          (finish-Keeps tailscale r zone_name (get_zone h.config q.name) p.1) e

    -- Serving a client with a valid address is no cache hit if every entry of every cache is stored
    -- under a key without a client's address, and then leaves the caches so, provided that no
    -- type's text has a `:`, nor has the text of the address, and that this is no type's text.
    pub serve_dns-no_hit :
        (remote : Text) (r : Msg) (s s' : State)
        → get_client_ip w remote ≡ some addr
        → AllShared w.dns s.caches
        → serve_dns w h remote r s ≡ some s'
        → (hits s'.events ≡ hits s.events) × AllShared w.dns s'.caches
    unfolding serve_dns
    serve_dns-no_hit remote r s s' client shared e =
        serve_all-Keeps r r.question s s'
          (ap (λ c. serve_all w h c r r.question s) (sym client) ∙ e) shared
