-- ===== src/Mail/Oauth/Acquire/Usable.antt =====
-- The tokens that `acquire_token` of src/mail/oauth.rs returns.
use nvme_disk_mon.Common.{
  ℕ, zero, suc, ◌+◌, ◌≤◌, ◌<◌, ◌≡◌, refl, ◌≢◌, ◌⊎◌, inl, inr, Bool, true, false, ◌||◌, List, [],
  ◌∷◌, all, contains, Option, none, some, Bytes, bytes, bytes_key, Result, ok, err, eqb, is_empty,
  arith, Result-cases,
}
use nvme_disk_mon.Config.{OAuthConfig, MailConfig}
use nvme_disk_mon.Mail.Errors.{MailError}
use nvme_disk_mon.Mail.Oauth.{
  TokenCache, CacheDecision, has_refresh, AuthorizationServerMetadata, TokenResponseWire,
  use_access_token, refresh, authorize, require_authorization, has_margin, has_valid_access, decide,
  decide_cache, validate_cache_binding, is_access_token_scope, required_scopes, are_granted,
  resolve_granted_access_token_scopes, validate_token_response,
}
use nvme_disk_mon.Mail.Oauth.Acquire.{
  new_cache, store, store_result, persist_response, check_binding, Surroundings, Prepared, prepare,
  request, use_cached, cached_refresh_token, refresh_with, authorize_with, carry_out,
  acquire_prepared, acquire_token,
}
use nvme_disk_mon.Mail.Oauth.Requests.{
  HttpResponse, TokenGrant, refresh_grant, form_of, read_token, after_response, after_send,
  request_loop, request_token,
}
use nvme_disk_mon.Mail.Send.{OAuthTokenMode, force_refresh}

after_send-valid :
    (retry : Option (Result TokenResponseWire MailError))
    (sent : Option (HttpResponse TokenResponseWire)) (r : TokenResponseWire)
    → (retry ≡ some (ok r) → validate_token_response r ≡ ok tt)
    → after_send retry sent ≡ ok r
    → validate_token_response r ≡ ok tt
unfolding after_send after_response read_token
after_send-valid retry sent r h e = ground arith

request_loop-valid :
    (send : ℕ → Option (HttpResponse TokenResponseWire)) (left : ℕ) (r : TokenResponseWire)
    → request_loop send left ≡ ok r
    → validate_token_response r ≡ ok tt
unfolding request_loop
request_loop-valid send zero r e = after_send-valid none (send zero) r (λ h. ground arith) e
request_loop-valid send (suc left) r e =
    after_send-valid (some (request_loop send left)) (send (suc left)) r
      (λ h. request_loop-valid send left r (ground arith)) e

eqb_self : (a : Bytes) → eqb a a ≡ true
eqb_self a = ground arith

new_cache-bound :
    (oauth : OAuthConfig) (metadata : AuthorizationServerMetadata) (previous : Option TokenCache)
    (r : TokenResponseWire) (now : ℕ) (cache : TokenCache)
    → new_cache oauth metadata previous r now ≡ ok cache
    → (validate_cache_binding cache metadata oauth.oauth_app_id oauth.oauth_scopes ≡ ok tt)
      × (cache.access_token ≡ r.access_token)
      × (cache.expires_at ≡ now + r.expires_in)
unfolding new_cache validate_cache_binding resolve_granted_access_token_scopes
new_cache-bound oauth metadata previous r now cache e =
    ground (arith, eqb_self metadata.issuer, eqb_self oauth.oauth_app_id)

check_binding-some :
    (cache : TokenCache) (metadata : AuthorizationServerMetadata) (oauth : OAuthConfig)
    → check_binding (some cache) metadata oauth ≡ ok tt
    → validate_cache_binding cache metadata oauth.oauth_app_id oauth.oauth_scopes ≡ ok tt
unfolding check_binding
check_binding-some cache metadata oauth h = h

prepare-bound :
    (w : Surroundings) (cfg : MailConfig) (p : Prepared)
    → prepare w cfg ≡ ok p
    → check_binding p.existing p.metadata p.oauth ≡ ok tt
unfolding prepare
prepare-bound w cfg p e = ground arith

-- The cache is of this format, this server and this client, and has each scope that the configuration
-- asks for in an access token.
pub record IsBound (cache : TokenCache) (issuer client_id : Bytes) (scopes : List Bytes)
    : Type 0 where
  pub format : cache.schema_version ≡ 1
  pub server : cache.issuer ≡ issuer
  pub client : cache.client_id ≡ client_id
  pub granted :
      all
        (λ scope. eqb scope (bytes "offline_access") || contains cache.granted_scopes scope)
        scopes
      ≡ true

required-granted :
    (granted scopes : List Bytes)
    → all (λ scope. contains granted scope) (required_scopes scopes)
      ≡ all (λ scope. eqb scope (bytes "offline_access") || contains granted scope) scopes
unfolding required_scopes is_access_token_scope
required-granted granted [] = refl
required-granted granted (scope ∷ scopes) = ground (arith, required-granted granted scopes)

eqb-true : (a b : Bytes) → eqb a b ≡ true → a ≡ b
eqb-true a b h = ground arith

validate_cache_binding-IsBound :
    (cache : TokenCache) (metadata : AuthorizationServerMetadata) (client_id : Bytes)
    (scopes : List Bytes)
    → validate_cache_binding cache metadata client_id scopes ≡ ok tt
    → IsBound cache metadata.issuer client_id scopes
unfolding validate_cache_binding are_granted
validate_cache_binding-IsBound cache metadata client_id scopes h = record {
  format = ground arith;
  server = eqb-true cache.issuer metadata.issuer (ground arith);
  client = eqb-true cache.client_id client_id (ground arith);
  granted = ground (arith, required-granted cache.granted_scopes scopes);
}

-- The cache that a token stands in: written now, or read and fresh enough.
pub record IsUsable (w : Surroundings) (p : Prepared) (mode : OAuthTokenMode) (token : Bytes)
    (written : Option TokenCache) : Type 0 where
  pub cache : TokenCache
  pub token_of : cache.access_token ≡ token
  pub not_empty : is_empty token ≡ false
  pub bound : IsBound cache p.metadata.issuer p.oauth.oauth_app_id p.oauth.oauth_scopes
  pub source :
      ((written ≡ some cache) × (w.write_cache cache ≡ none) × (p.now < cache.expires_at))
      ⊎ ((written ≡ none)
          × (p.existing ≡ some cache)
          × (p.now + 60 ≤ cache.expires_at)
          × (mode ≢ force_refresh))

response-valid :
    (r : TokenResponseWire)
    → validate_token_response r ≡ ok tt
    → (is_empty r.access_token ≡ false) × (0 < r.expires_in)
unfolding validate_token_response
response-valid r h = ground arith

store-some :
    (o : Option MailError) (cache : TokenCache) (token : Bytes) (written : Option TokenCache)
    → store o cache ≡ (ok token, written)
    → (cache.access_token ≡ token) × (written ≡ some cache) × (o ≡ none)
unfolding store
store-some o cache token written e = ground arith

persist-IsUsable :
    (w : Surroundings) (p : Prepared) (mode : OAuthTokenMode) (previous : Option TokenCache)
    (response : Result TokenResponseWire MailError) (token : Bytes) (written : Option TokenCache)
    → ((r : TokenResponseWire) → response ≡ ok r → validate_token_response r ≡ ok tt)
    → persist_response w.write_cache p.oauth p.metadata previous response p.now
      ≡ (ok token, written)
    → IsUsable w p mode token written
unfolding persist_response store_result
persist-IsUsable w p mode previous (err error) token written v e = ground arith
persist-IsUsable w p mode previous (ok r) token written v e =
    elim (Result-cases (new_cache p.oauth p.metadata previous r p.now)) [
      | inr (error, q) ↦ ground arith
      | inl (cache, q) ↦
          let known = new_cache-bound p.oauth p.metadata previous r p.now cache q in
          let valid = response-valid r (v r refl) in
          let stored = store-some (w.write_cache cache) cache token written (ground arith) in
          record {
            cache = cache;
            token_of = stored.0;
            not_empty = ground (arith, stored.0, known.1, valid.0);
            bound =
                validate_cache_binding-IsBound cache p.metadata p.oauth.oauth_app_id
                  p.oauth.oauth_scopes known.0;
            source = inl (stored.1, stored.2, omega (arith, known.2, valid.1));
          }
    ]

request-valid :
    (w : Surroundings) (p : Prepared) (grant : TokenGrant) (r : TokenResponseWire)
    → request w p grant ≡ ok r
    → validate_token_response r ≡ ok tt
unfolding request request_token
request-valid w p grant r e =
    request_loop-valid
      (λ left. w.send left (
        form_of p.metadata.token_endpoint_auth p.oauth.oauth_app_id p.oauth.oauth_client_secret
          grant))
      2 r e

decide-cached :
    (mode : OAuthTokenMode) (valid refreshable : Bool)
    → decide mode valid refreshable ≡ use_access_token
    → (valid ≡ true) × (mode ≢ force_refresh)
unfolding decide
decide-cached mode valid refreshable e = ground arith

valid_access-fresh :
    (cache : TokenCache) (now : ℕ)
    → has_valid_access (some cache) now ≡ true
    → (now + 60 ≤ cache.expires_at) × (is_empty cache.access_token ≡ false)
unfolding has_valid_access has_margin
valid_access-fresh cache now h = ground arith

-- A token with the cache that it stands in, for each decision
module _ (w : Surroundings) (p : Prepared) (mode : OAuthTokenMode) (token : Bytes)
    (written : Option TokenCache) where
  cached-IsUsable :
      (existing : Option TokenCache)
      → p.existing ≡ existing
      → check_binding existing p.metadata p.oauth ≡ ok tt
      → has_valid_access existing p.now ≡ true
      → mode ≢ force_refresh
      → use_cached existing ≡ (ok token, written)
      → IsUsable w p mode token written
  unfolding use_cached
  cached-IsUsable none e bound valid other h = ground arith
  cached-IsUsable (some cache) e bound valid other h =
      let fresh = valid_access-fresh cache p.now valid in
      record {
        cache = cache;
        token_of = ground arith;
        not_empty = ground (arith, fresh.1);
        bound =
            validate_cache_binding-IsBound cache p.metadata p.oauth.oauth_app_id
              p.oauth.oauth_scopes (check_binding-some cache p.metadata p.oauth bound);
        source = inr (ground arith, e, fresh.0, other);
      }

  refresh-IsUsable :
      (refresh_token : Option Bytes)
      → refresh_with w p refresh_token ≡ (ok token, written)
      → IsUsable w p mode token written
  unfolding refresh_with
  refresh-IsUsable none h = ground arith
  refresh-IsUsable (some refresh_token) h =
      persist-IsUsable w p mode p.existing (request w p (refresh_grant refresh_token)) token written
        (request-valid w p (refresh_grant refresh_token)) h

  authorize-IsUsable :
      (grant : Result TokenGrant MailError)
      → authorize_with w p grant ≡ (ok token, written)
      → IsUsable w p mode token written
  unfolding authorize_with
  authorize-IsUsable (err error) h = ground arith
  authorize-IsUsable (ok grant) h =
      persist-IsUsable w p mode none (request w p grant) token written (request-valid w p grant) h

  carry_out-IsUsable :
      (decision : CacheDecision)
      → decide_cache p.existing mode p.now ≡ decision
      → check_binding p.existing p.metadata p.oauth ≡ ok tt
      → carry_out w p decision ≡ (ok token, written)
      → IsUsable w p mode token written
  unfolding carry_out decide_cache
  carry_out-IsUsable use_access_token e bound h =
      let cached =
        decide-cached mode (has_valid_access p.existing p.now) (has_refresh p.existing) e in
      cached-IsUsable p.existing refl bound cached.0 cached.1 h
  carry_out-IsUsable refresh e bound h = refresh-IsUsable (cached_refresh_token p.existing) h
  carry_out-IsUsable authorize e bound h =
      authorize-IsUsable (w.interactive_authorization p.metadata) h
  carry_out-IsUsable require_authorization e bound h = ground arith

-- A token that acquire_token returns is not empty and stands in a cache that has the format 1, the
-- server and the client of the configuration, and each of its scopes but offline_access: either
-- one that was written now and expires later than now, or, where no refresh is forced, the one
-- that was read, which is good for another 60 seconds.
pub acquire_token-IsUsable :
    (w : Surroundings) (cfg : MailConfig) (mode : OAuthTokenMode) (token : Bytes)
    (written : Option TokenCache)
    → acquire_token w cfg mode ≡ (ok token, written)
    → (p : Prepared) × (prepare w cfg ≡ ok p) × IsUsable w p mode token written
unfolding acquire_token acquire_prepared
acquire_token-IsUsable w cfg mode token written h = elim (Result-cases (prepare w cfg)) [
  | inr (error, e) ↦ ground arith
  | inl (p, e) ↦ (
    p,
    e,
    carry_out-IsUsable w p mode token written (decide_cache p.existing mode p.now) refl
        (prepare-bound w cfg p e) (ground arith),
  )
]
