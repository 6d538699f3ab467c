-- ===== src/KubeStore/Restart.antt =====
-- What a Secret holds after writes, and what a store that is opened on it later reads.
use tsdnsreflector.Prelude.{
  ◌≡◌, ◌≢◌, refl, sym, ◌∙◌, ap, inl, inr, Text, Bool, true, Option, none, some, List, [], ◌∷◌, ◌++◌,
  Dict, lookup, insert, Distinct, if◌then◌else◌, text_eq, arith, Option-cases,
}
use tsdnsreflector.Prelude.Maps.{
  copy_all, lookup-copy_all, copy_all-Distinct, lookup-insert, insert-Distinct,
}
use tsdnsreflector.Prelude.Result.{ok}
use tsdnsreflector.KubeStore.{
  Store, Client, Pod, get_current_namespace, read_state, create_or_update, update_secret,
  write_state, load_from_secret, open_store, new,
}

-- What the code relies on: `view` is what a Secret holds under a key; `Get` changes nothing and
-- returns it, and a `Create` or `Update` without an error stores the data. Nothing is said of one
-- with an error.
pub record Faithful {K : Type 0} (client : Client K) (view : Text → Text → K → Text → Option Text)
    : Type 0 where
  pub get_same :
      (ns n : Text) (k : K) (j : Text) → view ns n (client.get ns n k).0 j ≡ view ns n k j
  pub get_data :
      (ns n : Text) (k : K) (value : Dict Text)
      → (client.get ns n k).1 ≡ some value
      → Distinct value × ((j : Text) → lookup j value ≡ view ns n k j)
  pub created :
      (ns n : Text) (value : Dict Text) (k : K) (j : Text)
      → Distinct value
      → (client.create ns n value k).1 ≡ true
      → view ns n (client.create ns n value k).0 j ≡ lookup j value
  pub updated :
      (ns n : Text) (value : Dict Text) (k : K) (j : Text)
      → Distinct value
      → (client.update ns n value k).1 ≡ true
      → view ns n (client.update ns n value k).0 j ≡ lookup j value

-- The data last written under a key, or else what was there.
abbrev pub last_written : Text → List (Text × Text) → Option Text → Option Text
last_written j [] before = before
last_written j ((key, value) ∷ ws) before =
    last_written j ws (if text_eq key j then some value else before)

module _ {K : Type 0} (client : Client K) where
  abbrev pub write_all : List (Text × Text) → Store → K → Store × K
  write_all [] s k = (s, k)
  write_all ((key, value) ∷ ws) s k =
      let (s', k', fine) = write_state client key value s k in write_all ws s' k'

  -- A sequence of writes, and one more, whose result is the last part.
  abbrev pub writes : List (Text × Text) → Text → Text → Store → K → Store × K × Bool
  writes ws key value s k = let (s', k') = write_all ws s k in write_state client key value s' k'

module _ {K : Type 0} (client : Client K) (view : Text → Text → K → Text → Option Text)
    (faithful : Faithful client view) where
  create_or_update-view :
      (secret : Option (Dict Text)) (value : Dict Text) (s : Store) (k : K) (j : Text)
      → Distinct value
      → (create_or_update client secret value s k).1 ≡ true
      → view s.namespace s.secret_name (create_or_update client secret value s k).0 j
        ≡ lookup j value
  create_or_update-view none value s k j d fine =
      faithful.created s.namespace s.secret_name value k j d fine
  create_or_update-view (some old) value s k j d fine =
      faithful.updated s.namespace s.secret_name value k j d fine

  -- A write without an error leaves in the Secret what the store has in memory.
  pub write_state-view :
      (key value : Text) (s : Store) (k : K) (j : Text)
      → Distinct s.cache
      → (write_state client key value s k).2 ≡ true
      → view s.namespace s.secret_name (write_state client key value s k).1 j
        ≡ lookup j (insert key value s.cache)
  unfolding write_state update_secret copy_all lookup
  write_state-view key value s k j d fine =
      let all = insert key value s.cache in
      let sent = insert key value (copy_all all []) in
      let sent-Distinct : Distinct sent =
        insert-Distinct key value (copy_all all []) (copy_all-Distinct all [] tt) in
      let (k', secret) = client.get s.namespace s.secret_name k in
      let stored =
        create_or_update-view secret sent (record s { cache = all }) k' j sent-Distinct fine in
      stored
      ∙ rw
          (
            lookup-insert key j value (copy_all all []),
            lookup-copy_all j all [] (insert-Distinct key value s.cache d),
            lookup-insert key j value s.cache,
          )
          (ground arith)

  -- The same place, and no key twice.
  abbrev Kept : Store → Store → Type 0
  Kept s s' = Distinct s'.cache × (s'.namespace ≡ s.namespace) × (s'.secret_name ≡ s.secret_name)

  write_all-Kept :
      (ws : List (Text × Text)) (s : Store) (k : K)
      → Distinct s.cache
      → Kept s (write_all client ws s k).0
  unfolding write_state
  write_all-Kept [] s k d = (d, refl, refl)
  write_all-Kept ((key, value) ∷ ws) s k d =
      let (s', k', fine) = write_state client key value s k in
      write_all-Kept ws s' k' (insert-Distinct key value s.cache d)

  read_state-write_all :
      (ws : List (Text × Text)) (s : Store) (k : K) (j : Text)
      → read_state j (write_all client ws s k).0 ≡ last_written j ws (read_state j s)
  unfolding read_state write_state
  read_state-write_all [] s k j = refl
  read_state-write_all ((key, value) ∷ ws) s k j =
      let (s', k', fine) = write_state client key value s k in
      read_state-write_all ws s' k' j ∙ ap (last_written j ws) (lookup-insert key j value s.cache)

  last_written-append :
      (ws : List (Text × Text)) (key value j : Text) (before : Option Text)
      → last_written j (ws ++ (key, value) ∷ []) before
        ≡ (if text_eq key j then some value else last_written j ws before)
  last_written-append [] key value j before = refl
  last_written-append ((k, v) ∷ ws) key value j before =
      last_written-append ws key value j (if text_eq k j then some v else before)

  -- What a store that is opened where `Get` succeeds reads is what the Secret holds.
  read_state-open_store :
      (name ns : Text) (k : K) (j : Text)
      → (client.get ns name k).1 ≢ none
      → read_state j (open_store client name k ns).1 ≡ view ns name k j
  unfolding read_state open_store load_from_secret lookup
  read_state-open_store name ns k j got = elim (Option-cases (client.get ns name k).1) [
    | inl no_data ↦ absurd (got no_data)
    | inr (value, e) ↦
        let (d, same) = faithful.get_data ns name k value e in
        rw e (lookup-copy_all j value [] d ∙ ground (arith, same j))
  ]

  new-open_store :
      (pod : Pod) (name ns : Text) (k : K) (opened : K × Store)
      → get_current_namespace pod ≡ ok ns
      → new client pod name k ≡ ok opened
      → open_store client name k ns ≡ opened
  unfolding new
  new-open_store pod name ns k opened here made = ground arith

  -- Any writes, with or without an error, and then one without an error: a store that `New` opens
  -- then on the same Secret, in a pod of the same namespace, reads under every key the data last
  -- written there, or else what the first store had, if `Get` succeeds in `New`.
  pub new-last_written :
      (ws : List (Text × Text)) (key value : Text) (s : Store) (k : K) (pod : Pod)
      → (opened : K × Store) (j : Text) → Distinct s.cache
      → get_current_namespace pod ≡ ok s.namespace
      → (writes client ws key value s k).2 ≡ true
      → (client.get s.namespace s.secret_name (writes client ws key value s k).1).1 ≢ none
      → new client pod s.secret_name (writes client ws key value s k).1 ≡ ok opened
      → read_state j opened.1 ≡ last_written j (ws ++ (key, value) ∷ []) (read_state j s)
  unfolding read_state
  new-last_written ws key value s k pod opened j d here fine got made =
      let (s', k') = write_all client ws s k in
      let k2 = (writes client ws key value s k).1 in
      let (d', same_namespace, same_name) = write_all-Kept ws s k d in
      let same : open_store client s.secret_name k2 s.namespace ≡ opened =
        new-open_store pod s.secret_name s.namespace k2 opened here made in
      let held : view s.namespace s.secret_name k2 j ≡ lookup j (insert key value s'.cache) =
        ap (λ n. view n s.secret_name k2 j) (sym same_namespace)
        ∙ ap (λ n. view s'.namespace n k2 j) (sym same_name)
        ∙ write_state-view key value s' k' j d' fine in
      ap (λ o. read_state j o.1) (sym same)
      ∙ read_state-open_store s.secret_name s.namespace k2 j got
      ∙ held
      ∙ lookup-insert key j value s'.cache
      ∙ rw (last_written-append ws key value j (read_state j s))
          (ap (λ o. if text_eq key j then some value else o) (read_state-write_all ws s k j))

  -- If `Get` fails in `New`, the first write without an error replaces the whole Secret: it then
  -- holds the key that was written and no other, whatever it held before.
  pub write_state-replaces :
      (pod : Pod) (name ns : Text) (k : K) (opened : K × Store) (key value j : Text)
      → get_current_namespace pod ≡ ok ns
      → (client.get ns name k).1 ≡ none
      → new client pod name k ≡ ok opened
      → (write_state client key value opened.1 opened.0).2 ≡ true
      → view ns name (write_state client key value opened.1 opened.0).1 j
        ≡ (if text_eq key j then some value else none)
  unfolding open_store load_from_secret lookup insert
  write_state-replaces pod name ns k opened key value j here failed made fine =
      let s0 : Store = record { secret_name = name; namespace = ns; cache = [] } in
      let k' = (client.get ns name k).0 in
      let empty : ◌≡◌ {A = K × Store} (open_store client name k ns) (k', s0) = rw failed refl in
      let same : ◌≡◌ {A = K × Store} (k', s0) opened =
        sym empty ∙ new-open_store pod name ns k opened here made in
      let fine' : (write_state client key value s0 k').2 ≡ true =
        ap (λ o. (write_state client key value o.1 o.0).2) same ∙ fine in
      ap (λ o. view ns name (write_state client key value o.1 o.0).1 j) (sym same)
      ∙ write_state-view key value s0 k' j tt fine'
