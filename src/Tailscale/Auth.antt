-- ===== src/Tailscale/Auth.antt =====
-- internal/tailscale/tsnet.go: the auth key of the TSNet server, from the configuration, the
-- environment or OAuth credentials.
pub mod Secret
use tsdnsreflector.Prelude.{
  ℕ, suc, Text, Bool, true, false, not, Option, none, some, List, [], ◌∷◌, ◌++◌, ◌==◌, take, codes,
  is_empty, text_eq, has_prefix, trim_prefix, if◌then◌else◌,
}
use tsdnsreflector.Prelude.Split.{split, index_byte, trim_space}
use tsdnsreflector.Prelude.Result.{Result, ok, err, ◌>>=◌, ◌>>◌, guard}
use tsdnsreflector.Config.Runtime.Values.{Env, getenv}
use tsdnsreflector.Config.Runtime.{TailscaleConfig, OAuthConfig}

pub data AuthError : Type 0 where
  read_failed : Text → AuthError
  no_credential : AuthError
  client_id_failed client_secret_failed : AuthError → AuthError
  bad_parameters create_failed no_method : AuthError

-- What `generateAuthKeyWithOAuth` asks for: the credentials of the OAuth client, and the
-- capabilities of the key.
pub record KeyRequest : Type 0 where
  pub client_id : Text
  pub client_secret : Text
  pub token_url : Text
  pub base_url : Text
  pub ephemeral : Bool
  pub preauthorized : Bool
  pub tags : List Text

-- What is called: `os.ReadFile`, `url.ParseQuery` (with `Values.Get` of its result), and
-- `CreateKey` of the Tailscale client; `none` is an error.
pub record Outside : Type 0 where
  pub env : Env
  pub read_file : Text → Option Text
  pub parse_query : Text → Option (Text → Text)
  pub create_key : KeyRequest → Option Text

abbrev pub client_prefix : Text
client_prefix = codes "tskey-client-"

abbrev pub default_url : Text
default_url = codes "https://login.tailscale.com"

abbrev pub file_credential : Text → Option Text → Result AuthError Text
file_credential file none = err (read_failed file)
file_credential file (some bytes) = ok (trim_space bytes)

abbrev pub env_credential : Text → Result AuthError Text
env_credential value = if is_empty value then err no_credential else ok value

abbrev pub key_request : Text → Text → OAuthConfig → KeyRequest
key_request client_id client_secret oauth = record {
  client_id = client_id;
  client_secret = client_secret;
  token_url = oauth.base_url ++ codes "/api/v2/oauth/token";
  base_url = oauth.base_url;
  ephemeral = oauth.ephemeral;
  preauthorized = oauth.preauthorized;
  tags = oauth.tags;
}

abbrev pub created : Option Text → Result AuthError Text
created none = err create_failed
created (some key) = ok key

-- `fmt.Errorf("...: %w", err)`
abbrev pub wrap : (AuthError → AuthError) → Result AuthError Text → Result AuthError Text
wrap f (ok v) = ok v
wrap f (err e) = err (f e)

-- `dashIndex > 0`
abbrev pub up_to_dash : Text → Option ℕ → Text
up_to_dash remainder (some (suc i)) = take (suc i) remainder
up_to_dash remainder _ = remainder

unfoldable pub client_id_of : Text → Text
client_id_of secret =
    if has_prefix secret client_prefix
    then (let remainder = trim_prefix secret client_prefix in
        up_to_dash remainder (index_byte b'-' remainder))
    else []

abbrev pub secret_oauth : Text → OAuthConfig
secret_oauth secret = record {
  client_id = [];
  client_secret = secret;
  client_id_file = [];
  client_secret_file = [];
  base_url = default_url;
  tags = [];
  ephemeral = false;
  preauthorized = true;
}

abbrev pub bool_or : Text → Bool → Bool
bool_or value d = if is_empty value then d else text_eq value (codes "true")

-- The query's values over those of the configuration.
unfoldable pub with_values : (Text → Text) → OAuthConfig → OAuthConfig
with_values values c = record c {
  ephemeral = bool_or (values (codes "ephemeral")) c.ephemeral;
  preauthorized = bool_or (values (codes "preauthorized")) c.preauthorized;
  base_url = (let url = values (codes "baseURL") in if is_empty url then c.base_url else url);
  tags = (let tags = values (codes "tags") in if is_empty tags then c.tags else split b',' tags);
}

abbrev pub parsed_values : OAuthConfig → Option (Text → Text) → Result AuthError OAuthConfig
parsed_values c none = err bad_parameters
parsed_values c (some values) = ok (with_values values c)

module _ (o : Outside) where
  -- `readCredential`
  unfoldable pub read_credential : Text → Text → Text → Result AuthError Text
  read_credential direct file env_var =
      if not (is_empty direct)
      then ok direct
      else if not (is_empty file)
      then file_credential file (o.read_file file)
      else if not (is_empty env_var)
      then env_credential (getenv o.env env_var)
      else err no_credential

  unfoldable pub generate_auth_key_with_oauth : Text → Text → OAuthConfig → Result AuthError Text
  generate_auth_key_with_oauth client_id client_secret oauth =
      created (o.create_key (key_request client_id client_secret oauth))

  unfoldable pub generate_auth_key_from_oauth_config : OAuthConfig → Result AuthError Text
  unfolding read_credential generate_auth_key_with_oauth
  generate_auth_key_from_oauth_config oauth = do
    client_id ←
        wrap client_id_failed
          (read_credential oauth.client_id oauth.client_id_file (codes "TS_API_CLIENT_ID"))
    client_secret ← wrap client_secret_failed (
        read_credential oauth.client_secret oauth.client_secret_file (codes "TS_API_CLIENT_SECRET"))
    generate_auth_key_with_oauth client_id client_secret oauth

  -- `parts` of the secret: the secret itself and its parameters; further parts are not read.
  abbrev pub with_parts : List Text → Result AuthError (Text × OAuthConfig)
  with_parts [] = ok ([], secret_oauth [])
  with_parts (secret ∷ []) = ok (secret, secret_oauth secret)
  with_parts (secret ∷ query ∷ more) = do
    c ← parsed_values (secret_oauth secret) (o.parse_query query)
    ok (secret, c)

  unfoldable pub generate_auth_key_from_oauth_secret : Text → Result AuthError Text
  unfolding generate_auth_key_with_oauth client_id_of with_values
  generate_auth_key_from_oauth_secret client_secret = do
    (secret, oauth) ← with_parts (split b'?' client_secret)
    generate_auth_key_with_oauth (client_id_of secret) secret oauth

  -- A key, or an OAuth client's secret.
  abbrev pub key_or_secret : Text → Result AuthError Text
  key_or_secret key =
      if has_prefix key client_prefix then generate_auth_key_from_oauth_secret key else ok key

  abbrev pub from_oauth : Option OAuthConfig → Result AuthError Text
  from_oauth none = err no_method
  from_oauth (some oauth) = generate_auth_key_from_oauth_config oauth

  unfoldable pub resolve_auth_key : TailscaleConfig → Result AuthError Text
  unfolding generate_auth_key_from_oauth_secret generate_auth_key_from_oauth_config
  resolve_auth_key cfg =
      if not (is_empty cfg.auth_key)
      then key_or_secret cfg.auth_key
      else if not (is_empty (getenv o.env (codes "TS_AUTHKEY")))
      then key_or_secret (getenv o.env (codes "TS_AUTHKEY"))
      else from_oauth cfg.oauth
