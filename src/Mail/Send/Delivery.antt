-- ===== src/Mail/Send/Delivery.antt =====
-- `send_mail` of src/mail/mod.rs over the sessions of src/mail/smtp.rs: nothing confidential is sent in
-- the clear, and no message twice.
use nvme_disk_mon.Common.{
  ℕ, ◌≡◌, refl, inl, Bool, true, List, [], ◌∷◌, Bytes, Result, ok, err, All, all, drop, length,
}
use nvme_disk_mon.Config.{SmtpAuthMethod, plain, xoauth2, oauth_bearer, MailConfig}
use nvme_disk_mon.Mail.Errors.{IoError, MailError}
use nvme_disk_mon.Mail.Message.{PreparedMessage}
use nvme_disk_mon.Mail.Send.{
  OAuthTokenMode, Outbox, transient_retry_limit, wait_before_retry, log_session, relog, submit_in,
  open_with, acquire_in, open_with_oauth_token, oauth_smtp_auth, plain_smtp_auth,
  authenticate_plain, plain_attempt, send_plain_mail, send_oauth_mail, send_by, send_mail,
}
use nvme_disk_mon.Mail.Send.Once.{
  World, IsResult, IsOpening, retry_loop-Ended, send_oauth_mail_with-Ended,
}
use nvme_disk_mon.Mail.Smtp.{Peer, Event, SmtpConnection}
use nvme_disk_mon.Mail.Smtp.Auth.{SmtpAuth}
use nvme_disk_mon.Mail.Smtp.Keep.{IsKept}
use nvme_disk_mon.Mail.Smtp.Open.{Attempt, Opened, open_authenticated_smtp_blocking}
use nvme_disk_mon.Mail.Smtp.Open.Keep.{IsOpened, open-IsOpened}
use nvme_disk_mon.Mail.Smtp.Open.Secrecy.{is_shielded, shielded_opening, submit-shielded}
use nvme_disk_mon.Mail.Smtp.Submit.{submit_mail_blocking}
use nvme_disk_mon.Mail.Smtp.Submit.Outcome.{
  is_quiet, quiet_opening, IsSettled, IsSafe, submit-IsSafe,
}

abbrev pub IsShieldedTrace : List Event → Type 0
IsShieldedTrace trace = all is_shielded trace ≡ true

-- A session whose server does not have the message.
abbrev pub IsOver : List Event → Type 0
IsOver trace = IsSettled trace × IsShieldedTrace trace

-- Only the server of the last session can have the message.
abbrev pub IsOnce : List (List Event) → Type 0
IsOnce [] = Unit
IsOnce (trace ∷ earlier) = IsShieldedTrace trace × All IsOver earlier

IsOnce-over : (sessions : List (List Event)) → All IsOver sessions → IsOnce sessions
IsOnce-over [] h = tt
IsOnce-over (trace ∷ earlier) h = (h.0.1, h.1)

waiting :
    (delay : ℕ) (box : Outbox)
    → All IsOver box.sessions
    → All IsOver (wait_before_retry delay box).sessions
unfolding wait_before_retry
waiting delay box h = h

abbrev outbox_world : World Outbox
outbox_world = record {
  wait = wait_before_retry;
  Ready = λ box. All IsOver box.sessions;
  Ended = λ box. IsOnce box.sessions;
  ended = λ box h. IsOnce-over box.sessions h;
  waited = waiting;
}

record IsGood (c : SmtpConnection) : Type 0 where
  quiet : IsKept is_quiet true c
  shielded : IsKept is_shielded true c

log-IsOpening :
    (box : Outbox) (o : Opened)
    → IsOpened is_quiet o
    → IsOpened is_shielded o
    → All IsOver box.sessions
    → IsOpening outbox_world IsGood (log_session box o)
unfolding log_session
log-IsOpening box (trace, ok c) q s h =
    (((inl q.tested, s.tested), h), record { quiet = q.kept c refl; shielded = s.kept c refl })
log-IsOpening box (trace, err e) q s h = ((inl q.tested, s.tested), h)

All-drop : (sessions : List (List Event)) → All IsOver sessions → All IsOver (drop 1 sessions)
All-drop [] h = tt
All-drop (trace ∷ earlier) h = h.1

relog-IsResult :
    (box : Outbox) (r : SmtpConnection × Result ℕ MailError)
    → IsShieldedTrace r.0.trace
    → IsSafe r
    → All IsOver box.sessions
    → IsResult outbox_world (relog box r)
unfolding relog
relog-IsResult box (c, ok code) s safe h = (s, All-drop box.sessions h)
relog-IsResult box (c, err e) s safe h =
    ((s, All-drop box.sessions h), λ t. ((safe t, s), All-drop box.sessions h))

submit_in-IsResult :
    (message : PreparedMessage) (c : SmtpConnection) (box : Outbox)
    → IsGood c
    → All IsOver box.sessions
    → IsResult outbox_world (submit_in message c box)
unfolding submit_in
submit_in-IsResult message c box good h =
    relog-IsResult box (submit_mail_blocking message c) (submit-shielded message c good.shielded)
      (submit-IsSafe message c good.quiet) h

module _ (open_tls : Bytes → Peer → Result Peer MailError) (base64 : Bytes → Bytes)
    (verifier : Bool) (network : ℕ → Bytes → ℕ → Result (List Attempt) IoError)
    (acquire : OAuthTokenMode → Outbox → Result Bytes MailError) where
  open_with-IsOpening :
      (cfg : MailConfig) (method : Result SmtpAuth MailError) (box : Outbox)
      → All IsOver box.sessions
      → IsOpening outbox_world IsGood
          (open_with open_tls base64 verifier network acquire cfg method box)
  unfolding open_with
  open_with-IsOpening cfg (ok method) box h =
      let resolved = network (length box.sessions) in
      log-IsOpening box
        (open_authenticated_smtp_blocking open_tls base64 verifier resolved cfg method)
        (open-IsOpened open_tls base64 verifier resolved cfg method)
        (open-IsOpened open_tls base64 verifier resolved cfg method) h
  open_with-IsOpening cfg (err e) box h = h

  attempt-IsResult :
      (cfg : MailConfig) (message : PreparedMessage) (box : Outbox)
      → All IsOver box.sessions
      → IsResult outbox_world
          (plain_attempt open_tls base64 verifier network acquire cfg (submit_in message) box)
  unfolding plain_attempt authenticate_plain
  attempt-IsResult cfg message box h =
      go (open_with open_tls base64 verifier network acquire cfg (plain_smtp_auth cfg) box)
        (open_with-IsOpening cfg (plain_smtp_auth cfg) box h)
    where
      go :
          (r : Outbox × Result SmtpConnection MailError)
          → IsOpening outbox_world IsGood r
          → IsResult {A = ℕ} outbox_world
              (elim r.1 [ ok smtp ↦ submit_in message smtp r.0 | err error ↦ (r.0, err error) ])
      go (after, ok smtp) k = submit_in-IsResult message smtp after k.1 k.0
      go (after, err error) k = (IsOnce-over after.sessions k, λ _. k)

  oauth-IsOnce :
      (cfg : MailConfig) (message : PreparedMessage) (box : Outbox)
      → All IsOver box.sessions
      → IsOnce (send_oauth_mail open_tls base64 verifier network acquire cfg message box).0.sessions
  unfolding send_oauth_mail open_with_oauth_token acquire_in
  oauth-IsOnce cfg message box h =
      send_oauth_mail_with-Ended outbox_world IsGood
        (acquire_in open_tls base64 verifier network acquire)
        (open_with_oauth_token open_tls base64 verifier network acquire cfg) (submit_in message)
        (λ mode b k. k) (λ token b k. open_with-IsOpening cfg (oauth_smtp_auth cfg token) b k)
        (λ c b good k. submit_in-IsResult message c b good k) box h

  plain-IsOnce :
      (cfg : MailConfig) (message : PreparedMessage) (box : Outbox)
      → All IsOver box.sessions
      → IsOnce (send_plain_mail open_tls base64 verifier network acquire cfg message box).0.sessions
  unfolding send_plain_mail
  plain-IsOnce cfg message box h =
      retry_loop-Ended outbox_world
        (plain_attempt open_tls base64 verifier network acquire cfg (submit_in message))
        (attempt-IsResult cfg message) transient_retry_limit box h

  send_by-IsOnce :
      (method : SmtpAuthMethod) (cfg : MailConfig) (message : PreparedMessage) (box : Outbox)
      → All IsOver box.sessions
      → IsOnce (send_by open_tls base64 verifier network acquire method cfg message box).0.sessions
  unfolding send_by
  send_by-IsOnce plain cfg message box h = plain-IsOnce cfg message box h
  send_by-IsOnce xoauth2 cfg message box h = oauth-IsOnce cfg message box h
  send_by-IsOnce oauth_bearer cfg message box h = oauth-IsOnce cfg message box h

  -- Whatever the server answers, the network does and the tokens are: in each session of a call of
  -- send_mail only EHLO and STARTTLS are sent without TLS, and each session but the last one ended
  -- before the message was complete or with a reply of the server that refuses it for now, so that
  -- only one server can have the message.
  pub send_mail-IsOnce :
      (cfg : MailConfig) (message : PreparedMessage)
      → IsOnce
          (send_mail open_tls base64 verifier network acquire cfg message
            (record { sessions = []; delays = [] })).0.sessions
  unfolding send_mail
  send_mail-IsOnce cfg message =
      send_by-IsOnce cfg.smtp_auth_method cfg message (record { sessions = []; delays = [] }) tt
