-- ===== src/Mail/Oauth.antt =====
-- src/mail/oauth.rs: the cache of the token, the checks of what the authorization server answers, and
-- the decision between the cached token, a refresh and a new authorization. The URL parser is a
-- parameter.
pub mod Requests
pub mod Acquire
use Prim.Native.String.{String}
use nvme_disk_mon.Common.{
  ℕ, ◌+◌, ◌*◌, ◌%◌, Bool, true, false, not, ◌&&◌, ◌||◌, List, [], ◌∷◌, Option, none, some, Bytes,
  bytes, bytes_key, Result, ok, err, fail_if, ok_or, ◌>>=◌, ◌>>◌, ◌==◌, eqb, leb, ltb,
  if◌then◌else◌, all, any, length, is_empty, is_some, contains, is_ascii_alphanumeric,
}
use nvme_disk_mon.Common.Int.{checked_sub}
use nvme_disk_mon.Mail.Errors.{
  MailError, oauth_metadata_invalid, unsupported_token_endpoint_auth, token_response_invalid,
  token_cache_invalid, token_cache_security,
}
use nvme_disk_mon.Mail.Send.{OAuthTokenMode, interactive_authorize, runtime, force_refresh}
use nvme_disk_mon.Mail.Smtp.Ehlo.{eq_ignore_ascii_case}
use nvme_disk_mon.Writer.IoStat.{fields_of}

abbrev pub token_cache_schema : ℕ
token_cache_schema = 1

abbrev pub token_validity_margin_secs : ℕ
token_validity_margin_secs = 60

pub record TokenCache : Type 0 where
  pub schema_version : ℕ
  pub issuer : Bytes
  pub client_id : Bytes
  pub access_token : Bytes
  pub refresh_token : Option Bytes
  pub expires_at : ℕ
  pub granted_scopes : List Bytes

pub data TokenEndpointAuth : Type 0 where
  client_secret_basic client_secret_post : TokenEndpointAuth

pub record AuthorizationServerMetadata : Type 0 where
  pub issuer : Bytes
  pub authorization_endpoint : Bytes
  pub token_endpoint : Bytes
  pub token_endpoint_auth : TokenEndpointAuth

pub record TokenResponseWire : Type 0 where
  pub access_token : Bytes
  pub token_type : Bytes
  pub expires_in : ℕ
  pub refresh_token : Option Bytes
  pub scope : Option Bytes

pub data CacheDecision : Type 0 where
  use_access_token refresh authorize require_authorization : CacheDecision

-- `expires_at.checked_sub(now).is_some_and(..)`
unfoldable pub has_margin : Option ℕ → Bool
has_margin none = false
has_margin (some remaining) = leb token_validity_margin_secs remaining

unfoldable pub has_valid_access : Option TokenCache → ℕ → Bool
unfolding has_margin
has_valid_access none now = false
has_valid_access (some cache) now =
    has_margin (checked_sub cache.expires_at now) && not (is_empty cache.access_token)

unfoldable pub is_given : Option Bytes → Bool
is_given none = false
is_given (some token) = not (is_empty token)

unfoldable pub has_refresh : Option TokenCache → Bool
unfolding is_given
has_refresh none = false
has_refresh (some cache) = is_given cache.refresh_token

-- The `match` on the mode, by the tests of its guards
unfoldable pub decide : OAuthTokenMode → Bool → Bool → CacheDecision
decide force_refresh valid_access true = refresh
decide force_refresh valid_access false = require_authorization
decide interactive_authorize true refreshable = use_access_token
decide interactive_authorize false true = refresh
decide interactive_authorize false false = authorize
decide runtime true refreshable = use_access_token
decide runtime false true = refresh
decide runtime false false = require_authorization

unfoldable pub decide_cache : Option TokenCache → OAuthTokenMode → ℕ → CacheDecision
unfolding has_valid_access has_refresh decide
decide_cache cache mode now = decide mode (has_valid_access cache now) (has_refresh cache)

unfoldable pub is_access_token_scope : Bytes → Bool
is_access_token_scope scope = not (eqb scope (bytes "offline_access"))

-- `scopes.iter().filter(|scope| is_access_token_scope(scope))`
unfoldable pub required_scopes : List Bytes → List Bytes
unfolding is_access_token_scope
required_scopes [] = []
required_scopes (scope ∷ scopes) =
    let rest = required_scopes scopes in if is_access_token_scope scope then scope ∷ rest else rest

unfoldable pub are_granted : List Bytes → List Bytes → Bool
are_granted granted_scopes scopes = all (λ scope. contains granted_scopes scope) scopes

unfoldable pub validate_cache_binding :
    TokenCache → AuthorizationServerMetadata → Bytes → List Bytes → Result (Unit {0}) MailError
unfolding are_granted required_scopes
validate_cache_binding cache metadata client_id scopes =
    fail_if
      (not (cache.schema_version == token_cache_schema)
        || (not (eqb cache.issuer metadata.issuer)
            || (not (eqb cache.client_id client_id)
                || not (are_granted cache.granted_scopes (required_scopes scopes)))))
      token_cache_invalid

unfoldable pub granted_by : List Bytes → Option Bytes → List Bytes
granted_by required none = required
granted_by required (some scope) = fields_of scope

unfoldable pub resolve_granted_access_token_scopes :
    List Bytes → Option Bytes → Result (List Bytes) MailError
unfolding required_scopes granted_by are_granted
resolve_granted_access_token_scopes requested_scopes response_scope = do
  let granted_scopes = granted_by (required_scopes requested_scopes) response_scope
  fail_if
      (is_empty granted_scopes
        || not (are_granted granted_scopes (required_scopes requested_scopes)))
      (token_response_invalid "granted_scopes")
  ok granted_scopes

unfoldable pub previous_refresh_token : Option TokenCache → Option Bytes
previous_refresh_token none = none
previous_refresh_token (some cache) = cache.refresh_token

unfoldable pub take_refresh_token : Option Bytes → Option TokenCache → Option Bytes
unfolding previous_refresh_token
take_refresh_token (some token) previous =
    if is_empty token then previous_refresh_token previous else some token
take_refresh_token none previous = previous_refresh_token previous

unfoldable pub validate_token_response : TokenResponseWire → Result (Unit {0}) MailError
validate_token_response response = do
  fail_if (is_empty response.access_token) (token_response_invalid "access_token")
  fail_if (not (eq_ignore_ascii_case response.token_type (bytes "Bearer")))
      (token_response_invalid "token_type")
  fail_if (response.expires_in == 0) (token_response_invalid "expires_in")

unfoldable pub is_code_byte : ℕ → Bool
is_code_byte byte = is_ascii_alphanumeric byte || (byte == b'_' || (byte == b'-' || byte == b'.'))

unfoldable pub sanitize_error_code : Option Bytes → Option Bytes
unfolding is_code_byte
sanitize_error_code none = none
sanitize_error_code (some value) =
    if is_empty value || (ltb 64 (length value) || not (all is_code_byte value))
    then none
    else some value

-- `.unwrap_or_else(|| "none-advertised".to_owned())`
unfoldable pub or_none_advertised : Option Bytes → Bytes
or_none_advertised none = bytes "none-advertised"
or_none_advertised (some method) = method

unfoldable pub first_of : List Bytes → Option Bytes
first_of [] = none
first_of (method ∷ methods) = some method

unfoldable pub select_token_endpoint_auth : Option (List Bytes) → Result TokenEndpointAuth MailError
unfolding sanitize_error_code or_none_advertised first_of
select_token_endpoint_auth none = ok client_secret_basic
select_token_endpoint_auth (some methods) =
    if any (λ method. eqb method (bytes "client_secret_basic")) methods
    then ok client_secret_basic
    else if any (λ method. eqb method (bytes "client_secret_post")) methods
    then ok client_secret_post
    else err (
        unsupported_token_endpoint_auth
          (or_none_advertised (sanitize_error_code (first_of methods))))

-- What the program asks of a parsed URL; `text` is how it prints.
pub record Url : Type 0 where
  pub scheme : Bytes
  pub host : Option Bytes
  pub query : Option Bytes
  pub fragment : Option Bytes
  pub text : Bytes

-- The file of the cache: `is_file`, the owner and the mode of its metadata
pub record FileMetadata : Type 0 where
  pub is_file : Bool
  pub uid : ℕ
  pub gid : ℕ
  pub mode : ℕ

-- The mask 0o7777 keeps 12 bits.
unfoldable pub validate_cache_metadata : Bytes → FileMetadata → ℕ → ℕ → Result (Unit {0}) MailError
validate_cache_metadata path metadata required_owner required_group = do
  fail_if (not metadata.is_file) (token_cache_security path "be a regular file")
  fail_if (not (metadata.uid == required_owner) || not (metadata.gid == required_group))
      (token_cache_security path "be owned by root:root")
  fail_if (not (metadata.mode % 4096 == 0x180)) (token_cache_security path "have mode 0600")

module _ (parse_url : Bytes → Option Url) where
  unfoldable pub parse_https_url : Bytes → String → Result Url MailError
  parse_https_url value field = do
    url ← ok_or (parse_url value) (oauth_metadata_invalid field)
    fail_if
        (not (eqb url.scheme (bytes "https")) || (not (is_some url.host) || is_some url.fragment))
        (oauth_metadata_invalid field)
    ok url

  unfoldable pub parse_issuer_url : Bytes → Result Url MailError
  unfolding parse_https_url
  parse_issuer_url value = do
    issuer ← parse_https_url value "issuer"
    fail_if (is_some issuer.query) (oauth_metadata_invalid "issuer")
    ok issuer
