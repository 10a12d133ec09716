-- ===== src/Config.antt =====
-- app/config.py. Reading the environment is pydantic's; the numbers are natural, and the two time
-- limits that are floats are in milliseconds.
use mcp_agent_gateway.Base.{ℕ, String, truthy, ◌<>◌, Bool, true, false, List, [], if◌then◌else◌}
use mcp_agent_gateway.Integrations.Google.Jobs.Worker.{path_join}

pub record Settings : Type 0 where
  pub project_name : String
  pub version : String
  pub debug : Bool
  pub redis_url : String
  pub client_registry_ttl : ℕ
  pub rate_limit_enabled : Bool
  pub rate_limit_max_requests : ℕ
  pub rate_limit_window_seconds : ℕ
  pub oauth_issuer_url : String
  pub oauth_jwks_url : String
  pub oauth_expected_audience : String
  pub oauth_jwks_cache_ttl : ℕ
  pub gateway_base_url : String
  pub allowed_origins : List String
  pub google_client_id : String
  pub google_client_secret : String
  pub google_token_encryption_key : String
  pub google_shared_refresh_token : String
  pub google_drive_timeout : ℕ
  pub google_drive_max_connections : ℕ
  pub google_drive_max_keepalive : ℕ
  pub google_drive_max_retries : ℕ
  pub slack_token_encryption_key : String
  pub slack_timeout : ℕ
  pub slack_max_retries : ℕ
  pub slack_signing_secret : String
  pub slack_shared_bot_token : String
  pub slack_shared_user_token : String
  pub export_dir : String
  pub dcr_registration_endpoint : String
  pub dcr_initial_access_token : String

-- the defaults, by `tempfile.gettempdir()`
abbrev pub defaults : String → Settings
defaults tempdir = record {
  project_name = "MCP Agent Gateway";
  version = "0.1.0";
  debug = false;
  redis_url = "";
  client_registry_ttl = 86400;
  rate_limit_enabled = true;
  rate_limit_max_requests = 100;
  rate_limit_window_seconds = 60;
  oauth_issuer_url = "http://localhost:8080/realms/mcp-gateway";
  oauth_jwks_url = "";
  oauth_expected_audience = "http://localhost:8000/mcp/";
  oauth_jwks_cache_ttl = 3600;
  gateway_base_url = "http://localhost:8000";
  allowed_origins = [];
  google_client_id = "";
  google_client_secret = "";
  google_token_encryption_key = "";
  google_shared_refresh_token = "";
  google_drive_timeout = 10000;
  google_drive_max_connections = 100;
  google_drive_max_keepalive = 20;
  google_drive_max_retries = 3;
  slack_token_encryption_key = "";
  slack_timeout = 8000;
  slack_max_retries = 3;
  slack_signing_secret = "";
  slack_shared_bot_token = "";
  slack_shared_user_token = "";
  export_dir = path_join tempdir "mcp-exports";
  dcr_registration_endpoint = "";
  dcr_initial_access_token = "";
}

unfoldable pub jwks_uri : Settings → String
jwks_uri settings =
    (if truthy settings.oauth_jwks_url then settings.oauth_jwks_url else settings.oauth_issuer_url)
    <> "/protocol/openid-connect/certs"
