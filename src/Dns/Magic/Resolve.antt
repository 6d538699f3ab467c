-- ===== src/Dns/Magic/Resolve.antt =====
-- Which address `resolveHostname` finds.
use tsdnsreflector.Prelude.{
  ◌≡◌, ◌↔◌, ◌⊎◌, inl, inr, refl, sym, ap, ◌∙◌, Text, Bool, true, false, none, some, List, [], ◌∷◌,
  ◌++◌, text_eq, has_prefix, text_eq_iff, All, In, arith, Bool-cases, Option-cases, drop, length,
}
use tsdnsreflector.Prelude.Bytes.{append_of_has_prefix, has_prefix-append}
use mathlib.Core.List.{append_assoc}
use tsdnsreflector.World.{Addr, Peer, Status}
use tsdnsreflector.Dns.Magic.{
  plain_name, is_named, first_if, match_peer, match_peers, resolve_hostname,
}
use tsdnsreflector.Config.Domain.{dot}

-- Self and the peers, in the order in which they are tried.
abbrev pub machines : Status → List Peer
machines st = elim st.self [ none ↦ st.peers | some p ↦ p ∷ st.peers ]

-- The machine has the address first, and the name: fully, or as the labels in front of a dot.
pub record Answers (hostname : Text) (ip : Addr) (p : Peer) : Type 0 where
  pub rest : List Addr
  pub first : p.tailscale_ips ≡ ip ∷ rest
  pub named :
      (plain_name p.dns_name ≡ plain_name hostname)
      ⊎ (has_prefix (plain_name p.dns_name) (plain_name hostname ++ dot) ≡ true)

first_if-some :
    (ips : List Addr) (b : Bool) (ip : Addr)
    → first_if ips b ≡ some ip
    → (rest : List Addr) × (ips ≡ ip ∷ rest) × (b ≡ true)
first_if-some [] b ip h = absurd (ground arith)
first_if-some (a ∷ ips) true ip h =
    let same : a ≡ ip = ground arith in (ips, ap (λ x. x ∷ ips) same, refl)
first_if-some (a ∷ ips) false ip h = absurd (ground arith)

first_if-none_iff :
    (ips : List Addr) (b : Bool) → (first_if ips b ≡ none) ↔ ((ips ≡ []) ⊎ (b ≡ false))
first_if-none_iff [] b = ((λ h. inl refl), λ h. refl)
first_if-none_iff (a ∷ ips) true = ground arith
first_if-none_iff (a ∷ ips) false = ((λ h. inr refl), λ h. refl)

match_peer-Answers :
    (hostname : Text) (p : Peer) (ip : Addr)
    → match_peer (plain_name hostname) p ≡ some ip
    → Answers hostname ip p
unfolding match_peer is_named
match_peer-Answers hostname p ip h =
    let (rest, first, b) =
      first_if-some p.tailscale_ips (is_named (plain_name hostname) p.dns_name) ip h in
    let peer_dns = plain_name p.dns_name in
    let by_text = text_eq_iff (plain_name hostname) peer_dns in
    record {
      rest = rest;
      first = first;
      named = elim (Bool-cases (text_eq (plain_name hostname) peer_dns)) [
        | inl e ↦ inl (sym (by_text.0 e))
        | inr e ↦ inr (ground (arith, b, e))
      ];
    }

match_peers-Answers :
    (hostname : Text) (ps : List Peer) (ip : Addr)
    → match_peers (plain_name hostname) ps ≡ some ip
    → (p : Peer) × In p ps × Answers hostname ip p
unfolding match_peers
match_peers-Answers hostname [] ip h = absurd (ground arith)
match_peers-Answers hostname (p ∷ ps) ip h =
    elim (Option-cases (match_peer (plain_name hostname) p)) [
      | inl e ↦
          let (q, i, answers) = match_peers-Answers hostname ps ip (ground (arith, e, h)) in
          (q, inr i, answers)
      | inr (a, e) ↦
          let same : a ≡ ip = ground (arith, e, h) in
          (p, inl refl, match_peer-Answers hostname p ip (e ∙ ap some same))
    ]

resolve_machines :
    (st : Status) (hostname : Text)
    → resolve_hostname (some st) hostname ≡ match_peers (plain_name hostname) (machines st)
unfolding resolve_hostname match_peers
resolve_machines st hostname = elim (Option-cases st.self) [
  | inl e ↦ rw e refl
  | inr (p, e) ↦ rw e refl
]

-- An address that is found is the first one of a machine that has the name.
pub resolve_hostname-Answers :
    (st : Status) (hostname : Text) (ip : Addr)
    → resolve_hostname (some st) hostname ≡ some ip
    → (p : Peer) × In p (machines st) × Answers hostname ip p
resolve_hostname-Answers st hostname ip h =
    match_peers-Answers hostname (machines st) ip (sym (resolve_machines st hostname) ∙ h)

-- The machine's name is the host name, or the host name followed by a dot and more labels. A final
-- dot and the case of letters do not count.
abbrev pub HasName : Text → Text → Type 0
HasName hostname dns_name =
    (plain_name dns_name ≡ plain_name hostname)
    ⊎ ((rest : Text) × (plain_name dns_name ≡ plain_name hostname ++ b'.' ∷ rest))

is_named_iff :
    (hostname dns_name : Text)
    → (is_named (plain_name hostname) dns_name ≡ true) ↔ HasName hostname dns_name
unfolding is_named
is_named_iff hostname dns_name =
    let name = plain_name hostname in
    let full = plain_name dns_name in
    let by_text = text_eq_iff name full in
    (
      (λ h. elim (Bool-cases (text_eq name full)) [
        | inl same ↦ inl (sym (by_text.0 same))
        | inr differ ↦
            let longer : has_prefix full (name ++ dot) ≡ true = ground (arith, h, differ) in
            let rest = drop (length (name ++ dot)) full in
            inr (
              rest,
              sym (append_of_has_prefix full (name ++ dot) longer) ∙ append_assoc name dot rest,
            )
      ]),
      λ h. elim h [
        | inl same ↦ rw (by_text.1 (sym same)) refl
        | inr (rest, longer) ↦
            let split : full ≡ (name ++ dot) ++ rest = longer ∙ sym (append_assoc name dot rest) in
            let long : has_prefix full (name ++ dot) ≡ true =
              rw split (has_prefix-append (name ++ dot) rest) in
            ground (arith, long)
      ],
    )

-- A machine that has an address has not the name.
abbrev pub IsOther : Text → Peer → Type 0
IsOther hostname p = (p.tailscale_ips ≡ []) ⊎ (¬ HasName hostname p.dns_name)

match_peer-none_iff :
    (hostname : Text) (p : Peer) → (match_peer (plain_name hostname) p ≡ none) ↔ IsOther hostname p
unfolding match_peer
match_peer-none_iff hostname p =
    let named = is_named_iff hostname p.dns_name in
    let first = first_if-none_iff p.tailscale_ips (is_named (plain_name hostname) p.dns_name) in
    (
      (λ h. elim (first.0 h) [
        | inl no_ips ↦ inl no_ips
        | inr not_named ↦ inr (λ has. absurd (ground (arith, named.1 has, not_named)))
      ]),
      λ h. elim h [
        | inl no_ips ↦ first.1 (inl no_ips)
        | inr other ↦ elim (Bool-cases (is_named (plain_name hostname) p.dns_name)) [
          | inl has ↦ absurd (other (named.0 has))
          | inr not_named ↦ first.1 (inr not_named)
        ]
      ],
    )

match_peers-none_iff :
    (hostname : Text) (ps : List Peer)
    → (match_peers (plain_name hostname) ps ≡ none) ↔ All (IsOther hostname) ps
unfolding match_peers
match_peers-none_iff hostname [] = ((λ h. tt), λ h. refl)
match_peers-none_iff hostname (p ∷ ps) =
    let one = match_peer-none_iff hostname p in
    let (there, back) = match_peers-none_iff hostname ps in
    elim (Option-cases (match_peer (plain_name hostname) p)) [
      | inl e ↦ rw e ((λ h. (one.0 e, there h)), λ h. back h.1)
      | inr (a, e) ↦ rw e ((λ h. absurd (ground arith)), λ h. absurd (ground (arith, one.1 h.0, e)))
    ]

-- No address is found exactly when each machine has no address, or has a name that neither is the
-- host name nor starts with the host name and a dot, a final dot and the case of letters left aside.
pub resolve_hostname-none_iff :
    (st : Status) (hostname : Text)
    → (resolve_hostname (some st) hostname ≡ none) ↔ All (IsOther hostname) (machines st)
resolve_hostname-none_iff st hostname =
    rw (resolve_machines st hostname) (match_peers-none_iff hostname (machines st))
