-- ===== src/Dns/Serve/Access.antt =====
-- What a client outside the tailnet can reach.
use tsdnsreflector.Prelude.{
  suc, ◌≡◌, ◌≢◌, inl, inr, refl, ◌∙◌, Text, false, Option, none, some, List, [], ◌∷◌, lookup, All,
  Bool-cases, sym,
}
use tsdnsreflector.Message.{Question, Msg}
use mathlib.Core.Path.{subst}
use tsdnsreflector.Config.{ZoneRef}
use tsdnsreflector.Config.Domain.{get_zone}
use tsdnsreflector.Cache.{ZoneCache}
use tsdnsreflector.Dns.{Handler, State, write_msg, record_event, dns_query}
use tsdnsreflector.Dns.Client.{get_client_ip, is_tailscale_client}
use tsdnsreflector.Dns.Magic.{is_magic_dns_domain, name_error}
use tsdnsreflector.Dns.Serve.{
  zone_name_of, is_open, cache_answer, look_in, try_cache, serve_question, serve_questions, finish,
  serve_all, serve_dns,
}
use tsdnsreflector.World.{World, Addr}

-- No exchange is made and no cache changes.
abbrev pub IsQuiet : State → State → Type 0
IsQuiet s s' = (s'.asked ≡ s.asked) × (s'.caches ≡ s.caches)

abbrev pub NoMagic : List Question → Type 0
NoMagic = All (λ q. is_magic_dns_domain q.name ≡ false)

-- The zone of the first question, if any, does not allow external clients.
abbrev pub IsClosed : Handler → List Question → Type 0
IsClosed h [] = Unit
IsClosed h (q ∷ qs) = is_open (get_zone h.config q.name) ≡ false

module _ (w : World) (h : Handler) where
  cache_answer-IsQuiet :
      (zone_name : Text) (c : ZoneCache) (o : Option Msg) (s : State)
      → IsQuiet s (cache_answer w h zone_name c o s).1
  unfolding cache_answer record_event write_msg
  cache_answer-IsQuiet zone_name c none s = (refl, refl)
  cache_answer-IsQuiet zone_name c (some m) s = (refl, refl)

  look_in-IsQuiet :
      (client : Option Addr) (q : Question) (zone_name : Text) (o : Option ZoneCache) (s : State)
      → IsQuiet s (look_in w h client q zone_name o s).1
  look_in-IsQuiet client q zone_name none s = (refl, refl)
  look_in-IsQuiet client q zone_name (some c) s =
      cache_answer-IsQuiet zone_name c _ (record s { readings = suc s.readings })

  module _ (client : Option Addr) (external : is_tailscale_client client ≡ false) (r : Msg) where
    serve_question-IsQuiet :
        (zone_name : Text) (q : Question) (s : State)
        → is_magic_dns_domain q.name ≡ false
        → IsQuiet s (serve_question w h client r zone_name q s).1
    unfolding serve_question try_cache
    serve_question-IsQuiet zone_name q s plain =
        let quiet = look_in-IsQuiet client q zone_name (lookup zone_name s.caches) s in
        elim (Bool-cases (look_in w h client q zone_name (lookup zone_name s.caches) s).0) [
          | inl e ↦ rw e quiet
          | inr e ↦ rw (e, external, plain) quiet
        ]

    serve_questions-IsQuiet :
        (zone_name : Text) (qs : List Question) (s : State)
        → NoMagic qs
        → IsQuiet s (serve_questions w h client r zone_name qs s).1
    unfolding serve_questions
    serve_questions-IsQuiet zone_name [] s plain = (refl, refl)
    serve_questions-IsQuiet zone_name (q ∷ qs) s plain =
        let first = serve_question-IsQuiet zone_name q s plain.0 in
        let p = serve_question w h client r zone_name q s in
        let others = serve_questions-IsQuiet zone_name qs p.1 plain.1 in
        elim (Bool-cases p.0) [
          | inl e ↦ rw e first
          | inr e ↦ rw e (others.0 ∙ first.0, others.1 ∙ first.1)
        ]

    finish-closed :
        (zone_name : Text) (found : Option ZoneRef) (s : State)
        → is_open found ≡ false
        → (IsQuiet s (finish w h false r zone_name found s))
          × ((finish w h false r zone_name found s).written ≡ name_error w r ∷ s.written)
    unfolding finish write_msg record_event
    finish-closed zone_name found s closed = rw closed ((refl, refl), refl)

    -- Without a cache for the zone the loop runs to its end and changes nothing.
    serve_questions-idle :
        (zone_name : Text) (qs : List Question) (s : State)
        → lookup zone_name s.caches ≡ none
        → NoMagic qs
        → serve_questions w h client r zone_name qs s ≡ (false, s)
    unfolding serve_questions serve_question try_cache
    serve_questions-idle zone_name [] s e plain = refl
    serve_questions-idle zone_name (q ∷ qs) s e plain =
        rw (e, external, plain.0) (serve_questions-idle zone_name qs s e plain.1)

    serve_all-refused :
        (q : Question) (qs : List Question) (s : State)
        → is_open (get_zone h.config q.name) ≡ false
        → lookup (zone_name_of h (q ∷ qs)) s.caches ≡ none
        → NoMagic (q ∷ qs)
        → (s' : State) × (serve_all w h client r (q ∷ qs) s ≡ some s')
          × IsQuiet s s'
          × (s'.written ≡ name_error w r ∷ s.written)
    unfolding serve_all record_event
    serve_all-refused q qs s closed e plain =
        let zone_name = zone_name_of h (q ∷ qs) in
        let s0 = record_event (dns_query zone_name (w.dns.type_to_string q.qtype)) s in
        let (quiet, wrote) = finish-closed zone_name (get_zone h.config q.name) s0 closed in
        (
          finish w h false r zone_name (get_zone h.config q.name) s0,
          rw (serve_questions-idle zone_name (q ∷ qs) s0 e plain, external) refl,
          quiet,
          wrote,
        )

    serve_all-closed :
        (q : Question) (qs : List Question) (s : State)
        → is_open (get_zone h.config q.name) ≡ false
        → NoMagic (q ∷ qs)
        → (s' : State) × (serve_all w h client r (q ∷ qs) s ≡ some s') × IsQuiet s s'
    unfolding serve_all record_event
    serve_all-closed q qs s closed plain =
        let zone_name = zone_name_of h (q ∷ qs) in
        let s0 = record_event (dns_query zone_name (w.dns.type_to_string q.qtype)) s in
        let p = serve_questions w h client r zone_name (q ∷ qs) s0 in
        let quiet = serve_questions-IsQuiet zone_name (q ∷ qs) s0 plain in
        let (done, wrote) = finish-closed zone_name (get_zone h.config q.name) p.1 closed in
        elim (Bool-cases p.0) [
          | inl e ↦ (p.1, rw e refl, quiet)
          | inr e ↦ (
            finish w h false r zone_name (get_zone h.config q.name) p.1,
            rw (e, external) refl,
            (done.0 ∙ quiet.0, done.1 ∙ quiet.1),
          )
        ]

  -- A query of a client outside the tailnet whose first question lies in no zone or in one that
  -- does not allow external clients is answered without any exchange with a server and without a
  -- change of a cache, provided that none of its questions is a MagicDNS name.
  pub serve_dns-closed :
      (remote : Text) (r : Msg) (s : State)
      → is_tailscale_client (get_client_ip w remote) ≡ false
      → r.question ≢ []
      → IsClosed h r.question
      → NoMagic r.question
      → (s' : State) × (serve_dns w h remote r s ≡ some s') × IsQuiet s s'
  unfolding serve_dns
  serve_dns-closed remote r s external asks closed plain = go r.question asks closed plain
    where
      go :
          (qs : List Question)
          → qs ≢ []
          → IsClosed h qs
          → NoMagic qs
          → (s' : State) × (serve_all w h (get_client_ip w remote) r qs s ≡ some s') × IsQuiet s s'
      go [] asks closed plain = absurd (asks refl)
      go (q ∷ qs) asks closed plain =
          serve_all-closed (get_client_ip w remote) external r q qs s closed plain

  -- A query of a client outside the tailnet, none of whose questions is a MagicDNS name, whose
  -- first question lies in no zone or in one that does not allow external clients, and whose zone
  -- has no cache, is answered with one message, the name error, without any exchange with a server
  -- and without a change of a cache.
  pub serve_dns-refused :
      (remote : Text) (r : Msg) (q : Question) (qs : List Question) (s : State)
      → is_tailscale_client (get_client_ip w remote) ≡ false
      → r.question ≡ q ∷ qs
      → is_open (get_zone h.config q.name) ≡ false
      → lookup (zone_name_of h (q ∷ qs)) s.caches ≡ none
      → NoMagic (q ∷ qs)
      → (s' : State) × (serve_dns w h remote r s ≡ some s')
        × IsQuiet s s'
        × (s'.written ≡ name_error w r ∷ s.written)
  unfolding serve_dns
  serve_dns-refused remote r q qs s external e closed uncached plain =
      let client = get_client_ip w remote in
      subst
        (λ all.
          (s' : State) × (serve_all w h client r all s ≡ some s')
          × IsQuiet s s'
          × (s'.written ≡ name_error w r ∷ s.written))
        (sym e) (serve_all-refused client external r q qs s closed uncached plain)
