-- ===== src/Dns/Kept/Serve.antt =====
-- `ServeDNS`: a relation that its steps have holds between the states before and after it.
use tsdnsreflector.Prelude.{
  suc, ◌≡◌, inl, inr, Text, Bool, true, false, not, ◌&&◌, Option, none, some, List, [], ◌∷◌, lookup,
  if◌then◌else◌, codes, Bool-cases, arith,
}
use mathlib.Core.Path.{subst}
use tsdnsreflector.Message.{Question, Msg}
use tsdnsreflector.Config.{ZoneRef}
use tsdnsreflector.Config.Domain.{get_zone}
use tsdnsreflector.Cache
use tsdnsreflector.Cache.{ZoneCache, cache_key}
use tsdnsreflector.Dns.{State, Handler, record_event, new_forwarder, dns_query}
use tsdnsreflector.Dns.Client.{get_client_ip, is_tailscale_client}
use tsdnsreflector.Dns.Magic.{is_magic_dns_domain}
use tsdnsreflector.Dns.Serve.{
  zone_name_of, via6_zone, is_open, cache_answer, try_cache, serve_question, serve_questions,
  forward_to, finish, serve_all, serve_dns,
}
use tsdnsreflector.Dns.Kept.{Steps}
use tsdnsreflector.Dns.{cache_size, cache_hit, cache_miss, external_allowed, external_blocked}
use tsdnsreflector.Dns.Serve.{look_in}
use tsdnsreflector.World.{World, Addr}
use tsdnsreflector.Memory.{update_cache_usage}
use tsdnsreflector.Dns.{cache_size, cache_hit, cache_miss, external_allowed, external_blocked}
use tsdnsreflector.Dns.Serve.{look_in}
use tsdnsreflector.Dns.Kept.Stores.{
  branch-R, forward-R, handle_magic_dns_query-R, handle_zone_query-R,
}

module _ (w : World) (R : State → State → Type 0) (steps : Steps w R) (h : Handler) (r : Msg) where
  cache_answer-R :
      (zone_name : Text) (c : ZoneCache) (o : Option Msg) (s : State)
      → R s (cache_answer w h zone_name c o s).1
  unfolding cache_answer
  cache_answer-R zone_name c none s = steps.recorded (cache_miss zone_name) s tt
  cache_answer-R zone_name c (some m) s =
      let s1 = record_event (cache_hit zone_name) s in
      let s2 = record_event (cache_size zone_name (Cache.size c)) s1 in
      let s3 : State = record s2 {
        monitor = (update_cache_usage (w.clock s2.readings) zone_name c.memory_usage s2.monitor).0;
      } in
      let s4 : State = record s3 { readings = suc s2.readings } in
      steps.next s s1 _ (steps.recorded (cache_hit zone_name) s tt) (
        steps.next s1 s2 _ (steps.recorded (cache_size zone_name (Cache.size c)) s1 tt) (
          steps.next s2 s3 _ (steps.watched (w.clock s2.readings) zone_name c.memory_usage s2) (
            steps.next s3 s4 _ (steps.counted s2.asked (suc s2.readings) s3) (steps.written m s4))))

  look_in-R :
      (client : Option Addr) (q : Question) (zone_name : Text) (o : Option ZoneCache) (s : State)
      → R s (look_in w h client q zone_name o s).1
  look_in-R client q zone_name none s = steps.same s
  look_in-R client q zone_name (some c) s =
      let s1 : State = record s { readings = suc s.readings } in
      steps.next s s1 _ (steps.counted s.asked (suc s.readings) s) (cache_answer-R zone_name c _ s1)

  try_cache-R :
      (client : Option Addr) (q : Question) (zone_name : Text) (s : State)
      → R s (try_cache w h client q zone_name s).1
  unfolding try_cache
  try_cache-R client q zone_name s = look_in-R client q zone_name (lookup zone_name s.caches) s

  serve_question-R :
      (client : Option Addr) (zone_name : Text) (q : Question) (s : State)
      → R s (serve_question w h client r zone_name q s).1
  unfolding serve_question
  serve_question-R client zone_name q s =
      let p = try_cache w h client q zone_name s in
      branch-R w R steps s p _ (try_cache-R client q zone_name s)
        (elim (Bool-cases (is_tailscale_client client && via6_zone (get_zone h.config q.name))) [
          | inl e ↦ rw e (handle_zone_query-R w R steps h r q zone_name p.1)
          | inr e ↦ rw e (elim (Bool-cases (is_magic_dns_domain q.name)) [
            | inl e' ↦ rw e' (handle_magic_dns_query-R w R steps h r q p.1)
            | inr e' ↦ rw e' (steps.same p.1)
          ])
        ])

  serve_questions-R :
      (client : Option Addr) (zone_name : Text) (qs : List Question) (s : State)
      → R s (serve_questions w h client r zone_name qs s).1
  unfolding serve_questions
  serve_questions-R client zone_name [] s = steps.same s
  serve_questions-R client zone_name (q ∷ qs) s =
      let p = serve_question w h client r zone_name q s in
      branch-R w R steps s p (serve_questions w h client r zone_name qs p.1)
        (serve_question-R client zone_name q s) (serve_questions-R client zone_name qs p.1)

  forward_to-R :
      (tailscale : Bool) (zone_name : Text) (found : Option ZoneRef) (s : State)
      → R s (forward_to w h tailscale r zone_name found s)
  unfolding forward_to
  forward_to-R tailscale zone_name none s =
      forward-R w R steps h.forwarder r (codes "global") false s
  forward_to-R tailscale zone_name (some z) s =
      let f = new_forwarder w (h.tsnet && tailscale) z.1.backend in
      let s1 = record_event (external_allowed zone_name) s in
      elim (Bool-cases (not tailscale)) [
        | inl e ↦ rw e (
            steps.next s s1 _ (steps.recorded (external_allowed zone_name) s tt)
              (forward-R w R steps f r zone_name true s1))
        | inr e ↦ rw e (forward-R w R steps f r zone_name true s)
      ]

  finish-R :
      (tailscale : Bool) (zone_name : Text) (found : Option ZoneRef) (s : State)
      → R s (finish w h tailscale r zone_name found s)
  unfolding finish
  finish-R tailscale zone_name found s =
      let s1 = record_event (external_blocked zone_name) s in
      elim (Bool-cases (not tailscale && not (is_open found))) [
        | inl e ↦ rw e (
            steps.next s s1 _ (steps.recorded (external_blocked zone_name) s tt)
              (steps.written _ s1))
        | inr e ↦ rw e (forward_to-R tailscale zone_name found s)
      ]

  after-R :
      (s s' : State) (p : Bool × State) (rest : State)
      → R s p.1
      → R p.1 rest
      → (if p.0 then some p.1 else some rest) ≡ some s'
      → R s s'
  after-R s s' p rest first second e = elim (Bool-cases p.0) [
    | inl b ↦ let same : p.1 ≡ s' = ground arith in subst (R s) same first
    | inr b ↦
        let same : rest ≡ s' = ground arith in subst (R s) same (steps.next s p.1 rest first second)
  ]

  serve_all-R :
      (client : Option Addr) (qs : List Question) (s s' : State)
      → serve_all w h client r qs s ≡ some s'
      → R s s'
  unfolding serve_all serve_questions
  serve_all-R client [] s s' e = absurd (ground arith)
  serve_all-R client (q ∷ qs) s s' e =
      let zone_name = zone_name_of h (q ∷ qs) in
      let event = dns_query zone_name (w.dns.type_to_string q.qtype) in
      let s0 = record_event event s in
      let p = serve_questions w h client r zone_name (q ∷ qs) s0 in
      let tailscale = is_tailscale_client client in
      steps.next s s0 s' (steps.recorded event s tt) (
        after-R s0 s' p (finish w h tailscale r zone_name (get_zone h.config q.name) p.1)
          (serve_questions-R client zone_name (q ∷ qs) s0)
          (finish-R tailscale zone_name (get_zone h.config q.name) p.1) e)

  pub serve_dns-R : (remote : Text) (s s' : State) → serve_dns w h remote r s ≡ some s' → R s s'
  unfolding serve_dns
  serve_dns-R remote s s' e = serve_all-R (get_client_ip w remote) r.question s s' e
