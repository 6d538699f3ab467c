-- ===== src/Tailscale/Auth/Secret.antt =====
-- What is asked for an OAuth client's secret.
use tsdnsreflector.Prelude.{
  ℕ, ◌≡◌, refl, ap, ◌||◌, take-append, Text, true, false, some, [], ◌∷◌, ◌++◌, length, codes,
  is_empty, text_eq, has_prefix, trim_prefix, if◌then◌else◌, arith,
}
use tsdnsreflector.Prelude.Split.{split, index_byte, Without, split_whole, split-append}
use tsdnsreflector.Tailscale.Auth.{
  Outside, KeyRequest, client_prefix, client_id_of, default_url, created, bool_or,
  generate_auth_key_from_oauth_secret, generate_auth_key_with_oauth, with_values,
}

-- The secret of a client: its identifier and a suffix.
abbrev pub secret_text : Text → Text → Text
secret_text id suffix = client_prefix ++ (id ++ b'-' ∷ suffix)

index_byte-append :
    (sep : ℕ) (s t : Text) → Without sep s → index_byte sep (s ++ sep ∷ t) ≡ some (length s)
unfolding index_byte
index_byte-append sep [] t h = ground arith
index_byte-append sep (c ∷ s) t h = rw (h.0, index_byte-append sep s t h.1)

client_id_of-secret_text :
    (c : ℕ) (id suffix : Text)
    → Without b'-' (c ∷ id)
    → client_id_of (secret_text (c ∷ id) suffix) ≡ c ∷ id
unfolding client_id_of has_prefix trim_prefix
client_id_of-secret_text c id suffix h =
    rw (index_byte-append b'-' (c ∷ id) suffix h) (ap (◌∷◌ c) (take-append id (b'-' ∷ suffix)))

-- The key that is asked for with a query's values: one that is neither ephemeral nor in need of
-- approval, without tags and from Tailscale's own server, unless a value says otherwise.
unfoldable pub request_for : Text → Text → (Text → Text) → KeyRequest
request_for id secret values =
    let ephemeral = values (codes "ephemeral") in
    let preauthorized = values (codes "preauthorized") in
    let tags = values (codes "tags") in
    let url =
      if is_empty (values (codes "baseURL")) then default_url else values (codes "baseURL") in
    record {
      client_id = id;
      client_secret = secret;
      token_url = url ++ codes "/api/v2/oauth/token";
      base_url = url;
      ephemeral = text_eq ephemeral (codes "true");
      preauthorized = is_empty preauthorized || text_eq preauthorized (codes "true");
      tags = if is_empty tags then [] else split b',' tags;
    }

abbrev pub no_values : Text → Text
no_values name = []

bool_or-false : (v : Text) → bool_or v false ≡ text_eq v (codes "true")
unfolding text_eq
bool_or-false [] = refl
bool_or-false (c ∷ v) = refl

bool_or-true : (v : Text) → bool_or v true ≡ (is_empty v || text_eq v (codes "true"))
bool_or-true [] = refl
bool_or-true (c ∷ v) = refl

module _ (o : Outside) (c : ℕ) (id suffix : Text) (one_id : Without b'-' (c ∷ id)) where
  abbrev secret : Text
  secret = secret_text (c ∷ id) suffix

  -- For an OAuth client's secret, of an identifier that is not empty and has no dash, a dash and a
  -- suffix, without a question mark, the key is asked for with the identifier and the whole secret.
  pub generate_auth_key_from_oauth_secret-plain :
      Without b'?' (secret_text (c ∷ id) suffix)
      → generate_auth_key_from_oauth_secret o (secret_text (c ∷ id) suffix)
        ≡ created (o.create_key (request_for (c ∷ id) (secret_text (c ∷ id) suffix) no_values))
  unfolding generate_auth_key_from_oauth_secret generate_auth_key_with_oauth request_for text_eq
  generate_auth_key_from_oauth_secret-plain h =
      rw (split_whole b'?' secret h, client_id_of-secret_text c id suffix one_id)

  -- For an OAuth client's secret, of an identifier that is not empty and has no dash, a dash and a
  -- suffix, followed by a question mark and a query that parses, both without a further question
  -- mark, the key is asked for with the identifier, the secret without the query, and what the
  -- query's values say of the server, the tags and the two flags, or their defaults.
  pub generate_auth_key_from_oauth_secret-query :
      (query : Text) (values : Text → Text)
      → Without b'?' (secret_text (c ∷ id) suffix)
      → Without b'?' query
      → o.parse_query query ≡ some values
      → generate_auth_key_from_oauth_secret o (secret_text (c ∷ id) suffix ++ b'?' ∷ query)
        ≡ created (o.create_key (request_for (c ∷ id) (secret_text (c ∷ id) suffix) values))
  unfolding generate_auth_key_from_oauth_secret generate_auth_key_with_oauth request_for text_eq
      with_values
  generate_auth_key_from_oauth_secret-query query values h h' parsed = rw (
    split-append b'?' secret query h,
    split_whole b'?' query h',
    parsed,
    client_id_of-secret_text c id suffix one_id,
    bool_or-false (values (codes "ephemeral")),
    bool_or-true (values (codes "preauthorized")),
  )
