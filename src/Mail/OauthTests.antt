-- ===== src/Mail/OauthTests.antt =====
-- Tokens from the cache and from a refresh, and the theorems at them.
use nvme_disk_mon.Common.{
  ℕ, zero, suc, ◌≡◌, refl, List, [], ◌∷◌, Option, none, some, Bytes, bytes, Bytes-discrete,
  ℕ_discrete, ok, err, contains, arith, is_ascii_alphanumeric,
}
use nvme_disk_mon.Config.{MailConfig, start_tls_required, xoauth2, OAuthConfig}
use nvme_disk_mon.Mail.Errors.{wrong_auth_method}
use nvme_disk_mon.Mail.Oauth.{
  TokenCache, AuthorizationServerMetadata, TokenResponseWire, client_secret_basic, has_margin,
  has_valid_access, is_given, has_refresh, decide, decide_cache, is_access_token_scope,
  required_scopes, are_granted, validate_cache_binding, granted_by,
  resolve_granted_access_token_scopes, previous_refresh_token, take_refresh_token,
  validate_token_response, sanitize_error_code,
}
use nvme_disk_mon.Mail.Oauth.Acquire.{
  Surroundings, Prepared, new_cache, store, store_result, persist_response, is_oauth_method,
  check_binding, prepare, request, use_cached, refresh_with, cached_refresh_token, carry_out,
  acquire_prepared, acquire_token,
}
use nvme_disk_mon.Mail.Oauth.Acquire.Unattended.{acquire_token-unattended}
use nvme_disk_mon.Mail.Oauth.Acquire.Usable.{IsUsable, acquire_token-IsUsable}
use nvme_disk_mon.Mail.Oauth.Requests.{
  HttpResponse, refresh_grant, is_success, is_server_error, is_error_code,
  oauth_response_is_retryable, grant_fields, client_fields, form_of, read_token, after_response,
  after_send, request_loop, request_token,
}
use nvme_disk_mon.Mail.Send.{runtime, force_refresh, interactive_authorize}
use nvme_disk_mon.Mail.Smtp.Ehlo.{eq_ignore_ascii_case, to_ascii_lowercase}
use nvme_disk_mon.Writer.IoStat.{fields_of, drop_blank, pieces, is_ascii_whitespace}

abbrev oauth_a : OAuthConfig
oauth_a = record {
  oauth_metadata_url = bytes "https://i/m";
  oauth_scopes = bytes "mail.send" ∷ bytes "offline_access" ∷ [];
  oauth_username = bytes "u";
  oauth_app_id = bytes "app";
  oauth_client_secret = bytes "secret";
  oauth_authorization_extra_params = [];
}

abbrev config_a : MailConfig
config_a = record {
  smtp_host = bytes "smtp.example.test";
  smtp_port = 587;
  smtp_auth_method = xoauth2;
  smtp_tls_mode = start_tls_required;
  send_as = bytes "a@example.test";
  send_to = bytes "b@example.test" ∷ [];
  oauth = some oauth_a;
  plain = none;
}

abbrev metadata_a : AuthorizationServerMetadata
metadata_a = record {
  issuer = bytes "https://i/";
  authorization_endpoint = bytes "https://i/a";
  token_endpoint = bytes "https://i/t";
  token_endpoint_auth = client_secret_basic;
}

abbrev cache_a : ℕ → TokenCache
cache_a expires_at = record {
  schema_version = 1;
  issuer = bytes "https://i/";
  client_id = bytes "app";
  access_token = bytes "old";
  refresh_token = some (bytes "r");
  expires_at = expires_at;
  granted_scopes = bytes "mail.send" ∷ [];
}

abbrev response_a : TokenResponseWire
response_a = record {
  access_token = bytes "new";
  token_type = bytes "bearer";
  expires_in = 3600;
  refresh_token = none;
  scope = some (bytes "other mail.send");
}

-- A server that fails once.
abbrev send_a : ℕ → List (Bytes × Bytes) → Option (HttpResponse TokenResponseWire)
send_a (suc (suc zero)) form = some (record { status = 503; document = none; error = none })
send_a _ form = some (record { status = 200; document = some response_a; error = none })

abbrev surroundings_a : ℕ → Surroundings
surroundings_a expires_at = record {
  http_client = ok tt;
  fetch_metadata = λ url. ok metadata_a;
  now = ok 1_000;
  existing = ok (some (cache_a expires_at));
  send = send_a;
  interactive_authorization = λ metadata. err wrong_auth_method;
  write_cache = λ cache. none;
}

abbrev written_a : TokenCache
written_a = record {
  schema_version = 1;
  issuer = bytes "https://i/";
  client_id = bytes "app";
  access_token = bytes "new";
  refresh_token = some (bytes "r");
  expires_at = 4_600;
  granted_scopes = bytes "other" ∷ bytes "mail.send" ∷ [];
}

-- 59 seconds are too few, so that the token is refreshed.
refreshed :
    acquire_token (surroundings_a 1_059) config_a runtime ≡ (ok (bytes "new"), some written_a)
unfolding Bytes-discrete ℕ_discrete contains is_ascii_alphanumeric has_margin has_valid_access
    is_given has_refresh decide decide_cache is_access_token_scope required_scopes are_granted
    validate_cache_binding granted_by resolve_granted_access_token_scopes previous_refresh_token
    take_refresh_token validate_token_response sanitize_error_code new_cache store store_result
    persist_response is_oauth_method check_binding prepare request use_cached refresh_with
    cached_refresh_token carry_out acquire_prepared acquire_token is_success is_server_error
    is_error_code oauth_response_is_retryable grant_fields client_fields form_of read_token
    after_response after_send request_loop request_token eq_ignore_ascii_case to_ascii_lowercase
    fields_of drop_blank pieces is_ascii_whitespace
refreshed = refl

acquire_token-IsUsable_example :
    (p : Prepared) × (prepare (surroundings_a 1_059) config_a ≡ ok p)
    × IsUsable (surroundings_a 1_059) p runtime (bytes "new") (some written_a)
acquire_token-IsUsable_example =
    acquire_token-IsUsable (surroundings_a 1_059) config_a runtime (bytes "new") (some written_a)
      refreshed

acquire_token-unattended_example :
    acquire_token
      (record (surroundings_a 1_059) {
        interactive_authorization = λ metadata. ok (refresh_grant (bytes "x"));
      })
      config_a
      force_refresh
    ≡ acquire_token (surroundings_a 1_059) config_a force_refresh
acquire_token-unattended_example =
    acquire_token-unattended (surroundings_a 1_059) config_a force_refresh
      (λ metadata. ok (refresh_grant (bytes "x"))) attended
  where
    attended : force_refresh ≡ interactive_authorize → ⊥
    attended e = ground arith
