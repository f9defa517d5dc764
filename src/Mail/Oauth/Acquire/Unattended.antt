-- ===== src/Mail/Oauth/Acquire/Unattended.antt =====
-- `acquire_token` of src/mail/oauth.rs without a user.
use nvme_disk_mon.Common.{
  ◌≡◌, refl, ◌≢◌, Bool, Option, none, some, Bytes, bytes_key, Result, ok, err, arith,
}
use nvme_disk_mon.Config.{MailConfig}
use nvme_disk_mon.Mail.Errors.{MailError}
use nvme_disk_mon.Mail.Oauth.{
  CacheDecision, has_refresh, AuthorizationServerMetadata, use_access_token, refresh, authorize,
  require_authorization, has_valid_access, decide, decide_cache,
}
use nvme_disk_mon.Mail.Oauth.Acquire.{
  Surroundings, Prepared, prepare, request, cached_refresh_token, refresh_with, carry_out,
  acquire_prepared, acquire_token,
}
use nvme_disk_mon.Mail.Oauth.Requests.{TokenGrant}
use nvme_disk_mon.Mail.Send.{OAuthTokenMode, interactive_authorize}

decide-attended :
    (mode : OAuthTokenMode) (valid refreshable : Bool)
    → mode ≢ interactive_authorize
    → decide mode valid refreshable ≢ authorize
unfolding decide
decide-attended mode valid refreshable h e = ground arith

abbrev with_browser :
    Surroundings → (AuthorizationServerMetadata → Result TokenGrant MailError) → Surroundings
with_browser w browser = record w { interactive_authorization = browser }

carry_out-unattended :
    (w : Surroundings) (browser : AuthorizationServerMetadata → Result TokenGrant MailError)
    (p : Prepared) (decision : CacheDecision)
    → decision ≢ authorize
    → carry_out (with_browser w browser) p decision ≡ carry_out w p decision
unfolding carry_out refresh_with request
carry_out-unattended w browser p use_access_token h = refl
carry_out-unattended w browser p refresh h = go (cached_refresh_token p.existing)
  where
    go :
        (token : Option Bytes)
        → refresh_with (with_browser w browser) p token ≡ refresh_with w p token
    go none = refl
    go (some token) = refl
carry_out-unattended w browser p authorize h = ground arith
carry_out-unattended w browser p require_authorization h = refl

-- In the modes of the daemon, those other than the interactive one, acquire_token never asks the
-- user: what the authorization by a browser would give changes neither the token nor the cache.
pub acquire_token-unattended :
    (w : Surroundings) (cfg : MailConfig) (mode : OAuthTokenMode)
    (browser : AuthorizationServerMetadata → Result TokenGrant MailError)
    → mode ≢ interactive_authorize
    → acquire_token (with_browser w browser) cfg mode ≡ acquire_token w cfg mode
unfolding acquire_token acquire_prepared prepare decide_cache
acquire_token-unattended w cfg mode browser h = go (prepare w cfg)
  where
    go :
        (r : Result Prepared MailError)
        → acquire_prepared (with_browser w browser) mode r ≡ acquire_prepared w mode r
    go (err error) = refl
    go (ok p) =
        carry_out-unattended w browser p (decide_cache p.existing mode p.now)
          (decide-attended mode (has_valid_access p.existing p.now) (has_refresh p.existing) h)
