-- ===== src/Mail/Send.antt =====
-- How src/mail/mod.rs sends a message and checks the settings: the loops over sessions, with their
-- retries and the refreshed token. What a closure does to the world is its state `S`.
pub mod Once
pub mod Delivery
use nvme_disk_mon.Common.{
  ℕ, zero, suc, ◌+◌, ◌-◌, ◌*◌, ◌^◌, Bool, true, false, ◌&&◌, List, [], ◌∷◌, Option, none, some,
  Bytes, Result, ok, err, ok_or, ◌>>=◌, ◌==◌, ltb, length, drop, if◌then◌else◌,
}
use nvme_disk_mon.Config.{
  SmtpAuthMethod, plain, xoauth2, oauth_bearer, OAuthConfig, PlainConfig, MailConfig,
}
use nvme_disk_mon.Mail.Errors.{
  IoError, MailError, wrong_auth_method, oauth_authentication_rejected, is_transient_smtp_error,
  mark_refresh_attempted,
}
use nvme_disk_mon.Mail.Message.{PreparedMessage}
use nvme_disk_mon.Mail.Smtp.{Peer, Event, SmtpConnection}
use nvme_disk_mon.Mail.Smtp.Auth.{SmtpAuth}
use nvme_disk_mon.Mail.Smtp.Open.{Attempt, Opened, open_authenticated_smtp_blocking}
use nvme_disk_mon.Mail.Smtp.Submit.{submit_mail_blocking, quit_best_effort}

abbrev pub transient_retry_limit : ℕ
transient_retry_limit = 2

-- `OAuthTokenMode` of src/mail/oauth.rs
pub data OAuthTokenMode : Type 0 where
  interactive_authorize runtime force_refresh : OAuthTokenMode

-- How long `wait_before_retry` sleeps.
unfoldable pub retry_delay_ms : ℕ → ℕ
retry_delay_ms retry_index = 200 * 2 ^ (if ltb retry_index 31 then retry_index else 31)

-- `MailError::OAuthAuthenticationRejected { code: 535, .. }`
unfoldable pub is_rejected_token : MailError → Bool
is_rejected_token (oauth_authentication_rejected code refresh_attempted) = code == 535
is_rejected_token _ = false

-- The end of an iteration: again after a transient error, where retries are left.
unfoldable pub retry_or_return :
    {S A : Type 0} → (S → S × Result A MailError) → S × Result A MailError → S × Result A MailError
retry_or_return retry (s, ok a) = (s, ok a)
retry_or_return retry (s, err error) = elim (is_transient_smtp_error error) [
  | true ↦ retry s
  | false ↦ (s, err error)
]

module _ {S : Type 0} (wait : ℕ → S → S) where
  -- `wait_before_retry(transient_retries)`, where `retries_left` are left behind this one
  unfoldable pub pause : ℕ → S → S
  unfolding retry_delay_ms
  pause retries_left = wait (retry_delay_ms (transient_retry_limit - suc retries_left))

  -- The loop of `send_plain_mail` and `validate_plain_mail`; `retries_left` is the limit less the
  -- retries.
  unfoldable pub retry_loop :
      {A : Type 0} → ℕ → (S → S × Result A MailError) → S → S × Result A MailError
  unfolding pause retry_or_return
  retry_loop zero attempt s = attempt s
  retry_loop (suc retries_left) attempt s =
      retry_or_return (λ after. retry_loop retries_left attempt (pause retries_left after))
        (attempt s)

  unfoldable pub mark_result : {A : Type 0} → S × Result A MailError → S × Result A MailError
  mark_result (s, ok a) = (s, ok a)
  mark_result (s, err error) = (s, err (mark_refresh_attempted error))

  module _ {Token Session A : Type 0} (acquire : OAuthTokenMode → S → S × Result Token MailError)
      (open_session : Token → S → S × Result Session MailError)
      (submit : Session → S → S × Result A MailError) where
    unfoldable pub submit_opened : S × Result Session MailError → S × Result A MailError
    submit_opened (s, ok session) = submit session s
    submit_opened (s, err error) = (s, err error)

    -- An iteration behind the refresh of the token
    unfoldable pub marked_attempt : Token → S → S × Result A MailError
    unfolding submit_opened mark_result
    marked_attempt token s = mark_result (submit_opened (open_session token s))

    unfoldable pub after_refresh : ℕ → S × Result Token MailError → S × Result A MailError
    unfolding retry_loop marked_attempt
    after_refresh retries_left (s, ok token) = retry_loop retries_left (marked_attempt token) s
    after_refresh retries_left (s, err error) = (s, err error)

    -- Whether the server has rejected the token, which stands before any refresh.
    unfoldable pub wants_refresh : Result Session MailError → Bool
    wants_refresh (ok session) = false
    wants_refresh (err error) = is_rejected_token error

    -- The loop before the refresh of the token
    unfoldable pub send_loop : ℕ → Token → S → S × Result A MailError
    unfolding after_refresh wants_refresh submit_opened pause retry_or_return
    send_loop zero token s =
        let opened = open_session token s in
        if wants_refresh opened.1
        then after_refresh zero (acquire force_refresh opened.0)
        else submit_opened opened
    send_loop (suc retries_left) token s =
        let opened = open_session token s in
        if wants_refresh opened.1
        then after_refresh (suc retries_left) (acquire force_refresh opened.0)
        else retry_or_return (λ after. send_loop retries_left token (pause retries_left after))
            (submit_opened opened)

    unfoldable pub send_acquired : S × Result Token MailError → S × Result A MailError
    unfolding send_loop
    send_acquired (s, ok token) = send_loop transient_retry_limit token s
    send_acquired (s, err error) = (s, err error)

    unfoldable pub send_oauth_mail_with : S → S × Result A MailError
    unfolding send_acquired
    send_oauth_mail_with s = send_acquired (acquire runtime s)

-- What a sender has done so far: the events of each session, and the delays, the newest first.
pub record Outbox : Type 0 where
  pub sessions : List (List Event)
  pub delays : List ℕ

unfoldable pub wait_before_retry : ℕ → Outbox → Outbox
wait_before_retry delay box = record box { delays = delay ∷ box.delays }

-- `oauth_smtp_auth`, with the token's secret
unfoldable pub auth_of : SmtpAuthMethod → OAuthConfig → Bytes → Result SmtpAuth MailError
auth_of xoauth2 oauth token = ok (SmtpAuth.xoauth2 oauth.oauth_username token)
auth_of oauth_bearer oauth token = ok (SmtpAuth.oauth_bearer (some oauth.oauth_username) token)
auth_of plain oauth token = err wrong_auth_method

unfoldable pub oauth_smtp_auth : MailConfig → Bytes → Result SmtpAuth MailError
unfolding auth_of
oauth_smtp_auth cfg token = do
  oauth ← ok_or cfg.oauth wrong_auth_method
  auth_of cfg.smtp_auth_method oauth token

unfoldable pub plain_smtp_auth : MailConfig → Result SmtpAuth MailError
plain_smtp_auth cfg = do
  credentials ← ok_or cfg.plain wrong_auth_method
  ok (SmtpAuth.plain credentials.plain_username credentials.plain_app_password)

unfoldable pub log_session : Outbox → Opened → Outbox × Result SmtpConnection MailError
log_session box (trace, result) = (record box { sessions = trace ∷ box.sessions }, result)

-- The events of a session replace those of its beginning.
unfoldable pub relog :
    {A : Type 0} → Outbox → SmtpConnection × Result A MailError → Outbox × Result A MailError
relog box (c, result) = (record box { sessions = c.trace ∷ drop 1 box.sessions }, result)

unfoldable pub submit_in : PreparedMessage → SmtpConnection → Outbox → Outbox × Result ℕ MailError
unfolding relog
submit_in message c box = relog box (submit_mail_blocking message c)

unfoldable pub quit_in : SmtpConnection → Outbox → Outbox × Result (Unit {0}) MailError
unfolding relog
quit_in c box = relog box (quit_best_effort c)

-- The network is what a host resolves to for each session in turn; a token is its secret.
module _ (open_tls : Bytes → Peer → Result Peer MailError) (base64 : Bytes → Bytes)
    (verifier : Bool) (network : ℕ → Bytes → ℕ → Result (List Attempt) IoError)
    (acquire : OAuthTokenMode → Outbox → Result Bytes MailError) where
  unfoldable pub open_with :
      MailConfig → Result SmtpAuth MailError → Outbox → Outbox × Result SmtpConnection MailError
  unfolding log_session
  open_with cfg (ok auth) box = log_session box (
      open_authenticated_smtp_blocking open_tls base64 verifier (network (length box.sessions)) cfg
        auth)
  open_with cfg (err error) box = (box, err error)

  unfoldable pub acquire_in : OAuthTokenMode → Outbox → Outbox × Result Bytes MailError
  acquire_in mode box = (box, acquire mode box)

  unfoldable pub open_with_oauth_token :
      MailConfig → Bytes → Outbox → Outbox × Result SmtpConnection MailError
  unfolding open_with oauth_smtp_auth
  open_with_oauth_token cfg token = open_with cfg (oauth_smtp_auth cfg token)

  unfoldable pub authenticate_plain : MailConfig → Outbox → Outbox × Result SmtpConnection MailError
  unfolding open_with plain_smtp_auth
  authenticate_plain cfg = open_with cfg (plain_smtp_auth cfg)

  unfoldable pub send_oauth_mail :
      MailConfig → PreparedMessage → Outbox → Outbox × Result ℕ MailError
  unfolding send_oauth_mail_with wait_before_retry acquire_in open_with_oauth_token submit_in
  send_oauth_mail cfg message =
      send_oauth_mail_with wait_before_retry acquire_in (open_with_oauth_token cfg)
        (submit_in message)

  unfoldable pub plain_attempt :
      {A : Type 0}
      → MailConfig
      → (SmtpConnection → Outbox → Outbox × Result A MailError)
      → Outbox
      → Outbox × Result A MailError
  unfolding authenticate_plain
  plain_attempt cfg submit box =
      let (after, opened) = authenticate_plain cfg box in
      elim opened [ ok smtp ↦ submit smtp after | err error ↦ (after, err error) ]

  unfoldable pub send_plain_mail :
      MailConfig → PreparedMessage → Outbox → Outbox × Result ℕ MailError
  unfolding retry_loop plain_attempt submit_in
  send_plain_mail cfg message =
      retry_loop wait_before_retry transient_retry_limit (plain_attempt cfg (submit_in message))

  unfoldable pub send_by :
      SmtpAuthMethod → MailConfig → PreparedMessage → Outbox → Outbox × Result ℕ MailError
  unfolding send_plain_mail send_oauth_mail
  send_by plain cfg message = send_plain_mail cfg message
  send_by xoauth2 cfg message = send_oauth_mail cfg message
  send_by oauth_bearer cfg message = send_oauth_mail cfg message

  unfoldable pub send_mail : MailConfig → PreparedMessage → Outbox → Outbox × Result ℕ MailError
  unfolding send_by
  send_mail cfg message = send_by cfg.smtp_auth_method cfg message

  -- `validate_mail`: a session that ends at once
  unfoldable pub validate_by :
      SmtpAuthMethod → MailConfig → Outbox → Outbox × Result (Unit {0}) MailError
  unfolding retry_loop plain_attempt quit_in send_oauth_mail_with wait_before_retry acquire_in
      open_with_oauth_token
  validate_by plain cfg =
      retry_loop wait_before_retry transient_retry_limit (plain_attempt cfg quit_in)
  validate_by xoauth2 cfg =
      send_oauth_mail_with wait_before_retry acquire_in (open_with_oauth_token cfg) quit_in
  validate_by oauth_bearer cfg =
      send_oauth_mail_with wait_before_retry acquire_in (open_with_oauth_token cfg) quit_in

  unfoldable pub validate_mail : MailConfig → Outbox → Outbox × Result (Unit {0}) MailError
  unfolding validate_by
  validate_mail cfg = validate_by cfg.smtp_auth_method cfg
