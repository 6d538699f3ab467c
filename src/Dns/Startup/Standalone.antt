-- ===== src/Dns/Startup/Standalone.antt =====
-- When a new server has a TSNet server.
use tsdnsreflector.Prelude.{◌≡◌, inl, inr, refl, Text, Bool-cases, is_empty}
use tsdnsreflector.Config.{Config}
use tsdnsreflector.Config.Runtime.{RuntimeConfig, to_tailscale_config}
use tsdnsreflector.KubeStore.{Client, Pod}
use tsdnsreflector.Tailscale.Auth.{Outside, resolve_auth_key}
use tsdnsreflector.Tailscale.{new_tsnet_server, setup_state_store}
use tsdnsreflector.World.{World}
use tsdnsreflector.Dns.Startup.{new_server_with_runtime}

-- The settings with other values for the OAuth credentials.
abbrev pub with_oauth : Text → Text → Text → Text → RuntimeConfig → RuntimeConfig
with_oauth id_file secret_file id secret rc = record rc {
  client_id_file = id_file;
  client_secret_file = secret_file;
  ts_api_client_id = id;
  ts_api_client_secret = secret;
}

module _ (w : World) (o : Outside) {K : Type 0} (client : Client K) (pod : Pod) where
  -- What `NewServerWithRuntime` makes, or its error, does not depend on the OAuth credentials of the
  -- settings.
  pub new_server_with_runtime-with_oauth :
      (id_file secret_file id secret : Text) (cfg : Config) (rc : RuntimeConfig) (k : K)
      → new_server_with_runtime w o client pod cfg (with_oauth id_file secret_file id secret rc) k
        ≡ new_server_with_runtime w o client pod cfg rc k
  unfolding new_server_with_runtime to_tailscale_config new_tsnet_server setup_state_store
      resolve_auth_key
  new_server_with_runtime-with_oauth id_file secret_file id secret cfg rc k =
      elim (Bool-cases (is_empty rc.ts_auth_key)) [ inl e ↦ rw e refl | inr e ↦ rw e refl ]
