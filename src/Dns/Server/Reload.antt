-- ===== src/Dns/Server/Reload.antt =====
-- What `ReloadConfig` leaves, on every branch.
use tsdnsreflector.Prelude.{
  ◌≡◌, ◌≢◌, ◌⊎◌, inl, inr, refl, ◌∙◌, Text, Option, none, some, [], ◌∷◌, Dict, lookup, Distinct,
  if◌then◌else◌, text_eq, text_eq_iff, arith, Bool-cases, false, is_empty, Option-cases, ◌*◌,
}
use mathlib.Core.Path.{subst}
use tsdnsreflector.Prelude.Maps.{lookup-insert}
use tsdnsreflector.Prelude.Result.{ok, Result-cases}
use tsdnsreflector.Config.{Config, Zone, CacheConfig}
use tsdnsreflector.Config.Validate.{validate_zones, parse_cache_ttl}
use tsdnsreflector.Cache.{ZoneCache, new_zone_cache}
use tsdnsreflector.Via6.{new_translator}
use tsdnsreflector.World.{World}
use tsdnsreflector.Dns.Server.{
  Server, reused, reload_cache, reload_caches, apply_config, reload_config, is_zero, ℤ, pos,
}

module _ (w : World) where
  -- The TTL that a text stands for: 5 minutes if it is empty, and 0 if it is no duration.
  abbrev pub ttl_of : Text → ℤ
  ttl_of ttl =
      if is_empty ttl
      then pos (300 * 1000000000)
      else elim (w.parse_duration ttl) [ none ↦ pos 0 | some t ↦ t ]

  -- An empty cache without a name, of the zone's size limit or else the global one.
  abbrev pub fresh_cache : Config → CacheConfig → ZoneCache
  fresh_cache cfg c = record {
    entries = [];
    max_size = if is_zero c.max_size then cfg.global.cache.max_size else c.max_size;
    ttl = ttl_of c.ttl;
    zone_name = [];
    memory_usage = 0;
    stopped = false;
    recorded = [];
  }

  -- The cache before the reload, or else a fresh one.
  abbrev pub old_or_fresh : Config → CacheConfig → Option ZoneCache → ZoneCache
  old_or_fresh cfg c none = fresh_cache cfg c
  old_or_fresh cfg c (some existing) = existing

  reused-old_or_fresh :
      (cfg : Config) (name : Text) (c : CacheConfig) (o : Option ZoneCache)
      → reused w cfg name c o ≡ old_or_fresh cfg c o
  unfolding new_zone_cache parse_cache_ttl
  reused-old_or_fresh cfg name c none = elim (Bool-cases (is_empty c.ttl)) [
    | inl e ↦ rw e refl
    | inr e ↦ elim (Option-cases (w.parse_duration c.ttl)) [
      | inl p ↦ rw (e, p) refl
      | inr (t, p) ↦ rw (e, p) refl
    ]
  ]
  reused-old_or_fresh cfg name c (some existing) = refl

  -- The cache that a zone's cache configuration gives, or else `d`.
  abbrev pub of_config :
      Config → Dict ZoneCache → Text → Option CacheConfig → Option ZoneCache → Option ZoneCache
  of_config cfg old name none d = d
  of_config cfg old name (some c) d = some (old_or_fresh cfg c (lookup name old))

  abbrev pub of_zone :
      Config → Dict ZoneCache → Text → Option Zone → Option ZoneCache → Option ZoneCache
  of_zone cfg old name none d = d
  of_zone cfg old name (some z) d = of_config cfg old name z.cache d

  module _ (cfg : Config) (old : Dict ZoneCache) where
    lookup-reload_cache :
        (name j : Text) (o : Option CacheConfig) (caches : Dict ZoneCache)
        → lookup j (reload_cache w cfg old name o caches)
          ≡ (if text_eq name j then of_config cfg old name o (lookup j caches) else lookup j caches)
    lookup-reload_cache name j none caches = ground arith
    lookup-reload_cache name j (some c) caches =
        rw (reused-old_or_fresh cfg name c (lookup name old))
          (lookup-insert name j (old_or_fresh cfg c (lookup name old)) caches)

    lookup-reload_caches :
        (zs : Dict Zone) (caches : Dict ZoneCache) (j : Text)
        → Distinct zs
        → lookup j (reload_caches w cfg old zs caches)
          ≡ of_zone cfg old j (lookup j zs) (lookup j caches)
    unfolding reload_caches lookup
    lookup-reload_caches [] caches j d = refl
    lookup-reload_caches ((name, z) ∷ zs) caches j d =
        let caches' = reload_cache w cfg old name z.cache caches in
        let rest = lookup-reload_caches zs caches' j d.1 in
        let step = lookup-reload_cache name j z.cache caches in
        elim (Bool-cases (text_eq name j)) [
          | inl same ↦
              let one : name ≡ j = (text_eq_iff name j).0 same in
              let gone : lookup j zs ≡ none = subst (λ n. lookup n zs ≡ none) one d.0 in
              rest ∙ rw (gone, step, same, one) refl
          | inr differ ↦ rest ∙ rw (step, differ) refl
        ]

  -- After a reload without an error the caches are those of the new configuration's zones that have
  -- a cache configuration: the old cache of that name as it was, whatever its size and TTL are in
  -- the new configuration, or else an empty one without a name, of the zone's or else the global
  -- size limit and of the zone's TTL. Zone names are distinct.
  pub reload_config-caches :
      (cfg : Config) (s : Server) (name : Text)
      → Distinct cfg.zones
      → (reload_config w cfg s).1 ≡ none
      → lookup name (reload_config w cfg s).0.state.caches
        ≡ of_zone cfg s.state.caches name (lookup name cfg.zones) none
  unfolding reload_config apply_config lookup
  reload_config-caches cfg s name d fine =
      elim (Result-cases (validate_zones w.parse_duration cfg)) [
        | inl (valid, e) ↦ elim (Result-cases (new_translator w cfg)) [
          | inl (t, e') ↦ rw (e, e') (lookup-reload_caches cfg s.state.caches cfg.zones [] name d)
          | inr (x, e') ↦ absurd (ground arith)
        ]
        | inr (x, e) ↦ absurd (ground arith)
      ]

  -- A reload either fails and changes nothing, or succeeds: then the new configuration is valid,
  -- and the handler has it and its translator.
  pub reload_config-cases :
      (cfg : Config) (s : Server)
      → (((reload_config w cfg s).1 ≢ none) × ((reload_config w cfg s).0 ≡ s))
        ⊎ (((reload_config w cfg s).1 ≡ none)
            × (validate_zones w.parse_duration cfg ≡ ok tt)
            × ((reload_config w cfg s).0.handler.config ≡ cfg)
            × (new_translator w cfg ≡ ok (reload_config w cfg s).0.handler.via6_trans))
  unfolding reload_config apply_config
  reload_config-cases cfg s = elim (Result-cases (validate_zones w.parse_duration cfg)) [
    | inl (valid, e) ↦ elim (Result-cases (new_translator w cfg)) [
      | inl (t, e') ↦ rw (e, e') (inr (refl, refl, refl, refl))
      | inr (x, e') ↦ rw (e, e') (inl ((λ no. ground arith), refl))
    ]
    | inr (x, e) ↦ rw e (inl ((λ no. ground arith), refl))
  ]
