-- ===== src/Mail/Oauth/Acquire.antt =====
-- `acquire_token` of src/mail/oauth.rs with what it reads and writes: the file of the cache, the
-- clock, the authorization server and the browser of the user are arguments.
pub mod Usable
pub mod Unattended
use nvme_disk_mon.Common.{
  ℕ, suc, ◌+◌, ◌*◌, Bool, true, false, not, ◌||◌, List, [], ◌∷◌, Option, none, some, Bytes, bytes,
  Result, ok, err, fail_if, ok_or, ◌>>=◌, ◌>>◌, ltb, if◌then◌else◌, length,
}
use nvme_disk_mon.Common.Int.{checked_unsigned, u64_end}
use nvme_disk_mon.Config.{SmtpAuthMethod, plain, xoauth2, oauth_bearer, OAuthConfig, MailConfig}
use nvme_disk_mon.Mail.Errors.{
  IoError, MailError, wrong_auth_method, reauthorization_required, token_response_invalid,
  token_cache_read, token_cache_invalid, token_cache_security,
}
use nvme_disk_mon.Mail.Oauth.{
  TokenCache, AuthorizationServerMetadata, TokenResponseWire, FileMetadata, CacheDecision,
  use_access_token, refresh, authorize, require_authorization, token_cache_schema, decide_cache,
  validate_cache_binding, resolve_granted_access_token_scopes, take_refresh_token,
  validate_cache_metadata,
}
use nvme_disk_mon.Mail.Oauth.Requests.{TokenGrant, refresh_grant, HttpResponse, request_token}
use nvme_disk_mon.Mail.Send.{OAuthTokenMode}

abbrev pub max_token_cache_bytes : ℕ
max_token_cache_bytes = 1024 * 1024

-- What `open` gives for the file of the cache.
pub data CacheFile : Type 0 where
  missing symbolic_link : CacheFile
  unopened : IoError → CacheFile
  opened : Result FileMetadata IoError → Result Bytes IoError → CacheFile

-- `.map_err(|source| MailError::TokenCacheRead { .. })`
unfoldable pub or_cache_read : {A : Type 0} → Bytes → Result A IoError → Result A MailError
or_cache_read path (ok a) = ok a
or_cache_read path (err source) = err (token_cache_read path source)

unfoldable pub read_cache :
    (Bytes → Option TokenCache) → Bytes → CacheFile → Result (Option TokenCache) MailError
unfolding or_cache_read validate_cache_metadata
read_cache parse_cache path missing = ok none
read_cache parse_cache path symbolic_link =
    err (token_cache_security path "be a regular file and not a symbolic link")
read_cache parse_cache path (unopened source) = err (token_cache_read path source)
read_cache parse_cache path (opened metadata contents) = do
  found ← or_cache_read path metadata
  validate_cache_metadata path found 0 0
  text ← or_cache_read path contents
  fail_if (ltb max_token_cache_bytes (length text)) token_cache_invalid
  cache ← ok_or (parse_cache text) token_cache_invalid
  ok (some cache)

-- The token, and the cache that was written.
abbrev pub Acquired : Type 0
Acquired = Result Bytes MailError × Option TokenCache

unfoldable pub new_cache :
    OAuthConfig
    → AuthorizationServerMetadata
    → Option TokenCache
    → TokenResponseWire
    → ℕ
    → Result TokenCache MailError
unfolding resolve_granted_access_token_scopes take_refresh_token
new_cache oauth metadata previous response now = do
  expires_at ←
      ok_or (checked_unsigned u64_end (now + response.expires_in))
        (token_response_invalid "expires_in")
  granted_scopes ← resolve_granted_access_token_scopes oauth.oauth_scopes response.scope
  ok (record {
    schema_version = token_cache_schema;
    issuer = metadata.issuer;
    client_id = oauth.oauth_app_id;
    access_token = response.access_token;
    refresh_token = take_refresh_token response.refresh_token previous;
    expires_at = expires_at;
    granted_scopes = granted_scopes;
  })

-- `write_cache`, which fails or not, and the token behind it
unfoldable pub store : Option MailError → TokenCache → Acquired
store none cache = (ok cache.access_token, some cache)
store (some error) cache = (err error, none)

unfoldable pub store_result :
    (TokenCache → Option MailError) → Result TokenCache MailError → Acquired
unfolding store
store_result write_cache (ok cache) = store (write_cache cache) cache
store_result write_cache (err error) = (err error, none)

unfoldable pub persist_response :
    (TokenCache → Option MailError)
    → OAuthConfig
    → AuthorizationServerMetadata
    → Option TokenCache
    → Result TokenResponseWire MailError
    → ℕ
    → Acquired
unfolding store_result new_cache
persist_response write_cache oauth metadata previous (ok response) now =
    store_result write_cache (new_cache oauth metadata previous response now)
persist_response write_cache oauth metadata previous (err error) now = (err error, none)

unfoldable pub is_oauth_method : SmtpAuthMethod → Bool
is_oauth_method plain = false
is_oauth_method xoauth2 = true
is_oauth_method oauth_bearer = true

unfoldable pub check_binding :
    Option TokenCache → AuthorizationServerMetadata → OAuthConfig → Result (Unit {0}) MailError
unfolding validate_cache_binding
check_binding none metadata oauth = ok tt
check_binding (some cache) metadata oauth =
    validate_cache_binding cache metadata oauth.oauth_app_id oauth.oauth_scopes

pub record Surroundings : Type 0 where
  pub http_client : Result (Unit {0}) MailError
  pub fetch_metadata : Bytes → Result AuthorizationServerMetadata MailError
  pub now : Result ℕ MailError
  pub existing : Result (Option TokenCache) MailError
  pub send : ℕ → List (Bytes × Bytes) → Option (HttpResponse TokenResponseWire)
  pub interactive_authorization : AuthorizationServerMetadata → Result TokenGrant MailError
  pub write_cache : TokenCache → Option MailError

-- What the decision rests on.
pub record Prepared : Type 0 where
  pub oauth : OAuthConfig
  pub metadata : AuthorizationServerMetadata
  pub now : ℕ
  pub existing : Option TokenCache

unfoldable pub prepare : Surroundings → MailConfig → Result Prepared MailError
unfolding is_oauth_method check_binding
prepare w cfg = do
  fail_if (not (is_oauth_method cfg.smtp_auth_method)) wrong_auth_method
  oauth ← ok_or cfg.oauth wrong_auth_method
  w.http_client
  metadata ← w.fetch_metadata oauth.oauth_metadata_url
  now ← w.now
  existing ← w.existing
  check_binding existing metadata oauth
  ok (record { oauth = oauth; metadata = metadata; now = now; existing = existing })

unfoldable pub request : Surroundings → Prepared → TokenGrant → Result TokenResponseWire MailError
unfolding request_token
request w p grant =
    request_token w.send p.oauth.oauth_app_id p.oauth.oauth_client_secret p.metadata grant

unfoldable pub use_cached : Option TokenCache → Acquired
use_cached none = (err token_cache_invalid, none)
use_cached (some cache) = (ok cache.access_token, none)

unfoldable pub refresh_with : Surroundings → Prepared → Option Bytes → Acquired
unfolding request persist_response
refresh_with w p none = (err reauthorization_required, none)
refresh_with w p (some refresh_token) =
    persist_response w.write_cache p.oauth p.metadata p.existing
      (request w p (refresh_grant refresh_token)) p.now

unfoldable pub cached_refresh_token : Option TokenCache → Option Bytes
cached_refresh_token none = none
cached_refresh_token (some cache) = cache.refresh_token

unfoldable pub authorize_with : Surroundings → Prepared → Result TokenGrant MailError → Acquired
unfolding request persist_response
authorize_with w p (ok grant) =
    persist_response w.write_cache p.oauth p.metadata none (request w p grant) p.now
authorize_with w p (err error) = (err error, none)

unfoldable pub carry_out : Surroundings → Prepared → CacheDecision → Acquired
unfolding use_cached refresh_with cached_refresh_token authorize_with
carry_out w p use_access_token = use_cached p.existing
carry_out w p refresh = refresh_with w p (cached_refresh_token p.existing)
carry_out w p authorize = authorize_with w p (w.interactive_authorization p.metadata)
carry_out w p require_authorization = (err reauthorization_required, none)

unfoldable pub acquire_prepared :
    Surroundings → OAuthTokenMode → Result Prepared MailError → Acquired
unfolding carry_out decide_cache
acquire_prepared w mode (ok p) = carry_out w p (decide_cache p.existing mode p.now)
acquire_prepared w mode (err error) = (err error, none)

unfoldable pub acquire_token : Surroundings → MailConfig → OAuthTokenMode → Acquired
unfolding acquire_prepared prepare
acquire_token w cfg mode = acquire_prepared w mode (prepare w cfg)
