-- ===== src/Mail/Oauth/Requests.antt =====
-- The requests of src/mail/oauth.rs to the authorization server, with their retries. What the server
-- answers to each attempt is an argument.
use Prim.Native.String.{String}
use nvme_disk_mon.Common.{
  ℕ, zero, suc, ◌-◌, Bool, false, not, ◌||◌, ◌&&◌, List, [], ◌∷◌, ◌++◌, Option, none, some, Bytes,
  bytes, bytes_key, Result, ok, err, ok_or, fail_if, ◌>>=◌, ◌>>◌, ◌==◌, eqb, leb, ltb,
  if◌then◌else◌,
}
use nvme_disk_mon.Mail.Errors.{
  MailError, reauthorization_required, oauth_transport, oauth_server_rejected,
  oauth_metadata_invalid, token_response_invalid,
}
use nvme_disk_mon.Mail.Oauth.{
  TokenEndpointAuth, client_secret_basic, client_secret_post, AuthorizationServerMetadata,
  TokenResponseWire, Url, validate_token_response, sanitize_error_code, select_token_endpoint_auth,
  parse_https_url, parse_issuer_url,
}

-- A response, with what its body is as JSON: the document, and the field `error`.
pub record HttpResponse (A : Type 0) : Type 0 where
  pub status : ℕ
  pub document : Option A
  pub error : Option Bytes

unfoldable pub is_success : ℕ → Bool
is_success status = leb 200 status && ltb status 300

unfoldable pub is_server_error : ℕ → Bool
is_server_error status = leb 500 status && ltb status 600

unfoldable pub is_error_code : Option Bytes → Bytes → Bool
is_error_code none code = false
is_error_code (some value) code = eqb value code

unfoldable pub oauth_response_is_retryable : ℕ → Option Bytes → Bool
unfolding is_server_error is_error_code
oauth_response_is_retryable status error_code =
    status == 429
    || (is_server_error status || is_error_code error_code (bytes "temporarily_unavailable"))

abbrev pub http_attempts : ℕ
http_attempts = 3

pub data TokenGrant : Type 0 where
  refresh_grant : Bytes → TokenGrant
  authorization_code : Bytes → Bytes → Bytes → TokenGrant

unfoldable pub grant_fields : TokenGrant → List (Bytes × Bytes)
grant_fields (refresh_grant refresh_token) =
    (bytes "grant_type", bytes "refresh_token") ∷ (bytes "refresh_token", refresh_token) ∷ []
grant_fields (authorization_code code redirect_uri pkce_verifier) =
    (bytes "grant_type", bytes "authorization_code")
    ∷ (bytes "code", code)
    ∷ (bytes "redirect_uri", redirect_uri)
    ∷ (bytes "code_verifier", pkce_verifier)
    ∷ []

-- The client in the form, where its secret is not in the header
unfoldable pub client_fields : TokenEndpointAuth → Bytes → Bytes → List (Bytes × Bytes)
client_fields client_secret_basic client_id client_secret = []
client_fields client_secret_post client_id client_secret =
    (bytes "client_id", client_id) ∷ (bytes "client_secret", client_secret) ∷ []

unfoldable pub form_of : TokenEndpointAuth → Bytes → Bytes → TokenGrant → List (Bytes × Bytes)
unfolding grant_fields client_fields
form_of method client_id client_secret grant =
    grant_fields grant ++ client_fields method client_id client_secret

-- The answer of a server that has taken the request
unfoldable pub read_token : Option TokenResponseWire → Result TokenResponseWire MailError
unfolding validate_token_response
read_token document = do
  response ← ok_or document (token_response_invalid "document")
  validate_token_response response
  ok response

-- What an attempt does with its answer; `retry` is the next attempt, where one is left.
unfoldable pub after_response :
    Option (Result TokenResponseWire MailError)
    → HttpResponse TokenResponseWire
    → Result TokenResponseWire MailError
unfolding is_success read_token sanitize_error_code is_error_code oauth_response_is_retryable
after_response retry response =
    let error_code = sanitize_error_code response.error in
    if is_success response.status
    then read_token response.document
    else if is_error_code error_code (bytes "invalid_grant")
    then err reauthorization_required
    else elim retry [
      | none ↦ err (oauth_server_rejected response.status error_code)
      | some next ↦
          if oauth_response_is_retryable response.status error_code
          then next
          else err (oauth_server_rejected response.status error_code)
    ]

unfoldable pub after_send :
    Option (Result TokenResponseWire MailError)
    → Option (HttpResponse TokenResponseWire)
    → Result TokenResponseWire MailError
unfolding after_response
after_send retry (some response) = after_response retry response
after_send none none = err (oauth_transport "token request")
after_send (some next) none = next

-- The loop, for the attempts that are left behind this one; `send` answers an attempt by its number
-- from the end, with no response where the transport fails.
unfoldable pub request_loop :
    (ℕ → Option (HttpResponse TokenResponseWire)) → ℕ → Result TokenResponseWire MailError
unfolding after_send
request_loop send zero = after_send none (send zero)
request_loop send (suc left) =
    let next = request_loop send left in after_send (some next) (send (suc left))

-- `client_id` and `client_secret` are those of the configuration.
unfoldable pub request_token :
    (ℕ → List (Bytes × Bytes) → Option (HttpResponse TokenResponseWire))
    → Bytes
    → Bytes
    → AuthorizationServerMetadata
    → TokenGrant
    → Result TokenResponseWire MailError
unfolding request_loop form_of
request_token send client_id client_secret metadata grant =
    request_loop
      (λ left. send left (form_of metadata.token_endpoint_auth client_id client_secret grant))
      (http_attempts - 1)

-- `send_with_retry`
unfoldable pub send_with_retry :
    {A : Type 0} → String → (ℕ → Option (HttpResponse A)) → ℕ → Result (HttpResponse A) MailError
unfolding is_server_error
send_with_retry stage request zero = ok_or (request zero) (oauth_transport stage)
send_with_retry stage request (suc left) =
    let next = send_with_retry stage request left in
    elim (request (suc left)) [
      | none ↦ next
      | some response ↦
          if response.status == 429 || is_server_error response.status then next else ok response
    ]

pub record AuthorizationServerMetadataWire : Type 0 where
  pub issuer : Bytes
  pub authorization_endpoint : Bytes
  pub token_endpoint : Bytes
  pub token_endpoint_auth_methods_supported : Option (List Bytes)

module _ (parse_url : Bytes → Option Url) where
  unfoldable pub read_metadata :
      AuthorizationServerMetadataWire → Result AuthorizationServerMetadata MailError
  unfolding parse_issuer_url parse_https_url select_token_endpoint_auth
  read_metadata wire = do
    issuer ← parse_issuer_url parse_url wire.issuer
    authorization_endpoint ←
        parse_https_url parse_url wire.authorization_endpoint "authorization_endpoint"
    token_endpoint ← parse_https_url parse_url wire.token_endpoint "token_endpoint"
    token_endpoint_auth ← select_token_endpoint_auth wire.token_endpoint_auth_methods_supported
    ok (record {
      issuer = issuer.text;
      authorization_endpoint = authorization_endpoint.text;
      token_endpoint = token_endpoint.text;
      token_endpoint_auth = token_endpoint_auth;
    })

  unfoldable pub fetch_metadata :
      (ℕ → Bytes → Option (HttpResponse AuthorizationServerMetadataWire))
      → Bytes
      → Result AuthorizationServerMetadata MailError
  unfolding parse_https_url send_with_retry is_success sanitize_error_code read_metadata
  fetch_metadata get url = do
    metadata_url ← parse_https_url parse_url url "oauth_metadata_url"
    response ←
        send_with_retry "metadata request" (λ left. get left metadata_url.text) (http_attempts - 1)
    fail_if (not (is_success response.status))
        (oauth_server_rejected response.status (sanitize_error_code response.error))
    wire ← ok_or response.document (oauth_metadata_invalid "document")
    read_metadata wire
