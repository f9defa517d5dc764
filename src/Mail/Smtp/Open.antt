-- ===== src/Mail/Smtp/Open.antt =====
-- How a session begins: `SmtpConnection::open`, `authenticate` and `open_authenticated_smtp_blocking`
-- of src/mail/smtp.rs. The resolver and the sockets are parameters, as are the TLS library and the
-- encoder for Base64.
pub mod Keep
pub mod Secrecy
use nvme_disk_mon.Common.{
  ℕ, Bool, true, false, not, List, [], ◌∷◌, ◌++◌, Option, none, some, Bytes, bytes, bytes_key, eqb,
  Result, ok, err, ◌==◌, contains, if◌then◌else◌,
}
use nvme_disk_mon.Config.{MailConfig, SmtpTlsMode, start_tls_required, implicit_tls, as_str}
use nvme_disk_mon.Mail.Errors.{
  IoError, addr_not_available, SmtpStage, greeting, ehlo, start_tls, auth, MailError,
  wrong_auth_method, smtp_connect, tls_validation, tls_transport, start_tls_unavailable,
  auth_mechanism_unavailable, oauth_authentication_rejected, plain_authentication_rejected,
  smtp_rejected,
}
use nvme_disk_mon.Mail.Smtp.{
  Peer, SmtpStream, Event, SmtpConnection, Smtp, ◌>>=◌, ◌>>◌, return, fail, lift, fail_if,
  then_with, command, read_response, shutdown,
}
use nvme_disk_mon.Mail.Smtp.Auth.{
  SmtpAuth, mechanism, is_oauth, oauth_challenge_response, encode_auth,
}
use nvme_disk_mon.Mail.Smtp.Ehlo.{default, from_ehlo}
use nvme_disk_mon.Mail.Smtp.Reply.{Response}
use nvme_disk_mon.Mail.Stuffing.{crlf}

-- `TcpStream::connect_timeout` for an address, then the errors of its timeouts.
pub record Attempt : Type 0 where
  pub connected : Result Peer IoError
  pub read_timeout : Option IoError
  pub write_timeout : Option IoError

unfoldable pub first_error : Option IoError → Option IoError → Option IoError
first_error (some error) other = some error
first_error none other = other

unfoldable pub set_timeouts : Bytes → ℕ → Peer → Option IoError → Result Peer MailError
set_timeouts host port peer none = ok peer
set_timeouts host port peer (some source) = err (smtp_connect host port source)

unfoldable pub last_error_or : Option IoError → IoError
last_error_or none = addr_not_available
last_error_or (some source) = source

-- The loop over the addresses
unfoldable pub connect_addresses : Bytes → ℕ → Option IoError → List Attempt → Result Peer MailError
unfolding first_error set_timeouts last_error_or
connect_addresses host port last_error [] = err (smtp_connect host port (last_error_or last_error))
connect_addresses host port last_error (attempt ∷ attempts) = elim attempt.connected [
  | ok peer ↦ set_timeouts host port peer (first_error attempt.read_timeout attempt.write_timeout)
  | err source ↦ connect_addresses host port (some source) attempts
]

unfoldable pub connect_tcp : Bytes → ℕ → Result (List Attempt) IoError → Result Peer MailError
unfolding connect_addresses
connect_tcp host port (err source) = err (smtp_connect host port source)
connect_tcp host port (ok attempts) = connect_addresses host port none attempts

-- `self.shutdown(); return Err(error)`
unfoldable pub close_with : MailError → Smtp (Unit {0})
unfolding shutdown then_with
close_with error = do shutdown; fail error

-- `if response.code != code { return Err(MailError::SmtpRejected { .. }) }`
unfoldable pub require_code : SmtpStage → ℕ → Response → Smtp (Unit {0})
require_code stage code response =
    fail_if (not (response.code == code)) (smtp_rejected stage response.code none)

unfoldable pub set_capabilities : List Bytes → Smtp (Unit {0})
unfolding from_ehlo
set_capabilities lines = λ c. (record c { capabilities = from_ehlo lines }, ok tt)

unfoldable pub say_ehlo : Smtp (Unit {0})
unfolding command require_code set_capabilities
say_ehlo = do
  response ← command ehlo (bytes "EHLO localhost\r\n")
  require_code ehlo 250 response
  set_capabilities response.lines

-- What the events were, and the connection.
abbrev pub Opened : Type 0
Opened = List Event × Result SmtpConnection MailError

unfoldable pub opened : SmtpConnection × Result (Unit {0}) MailError → Opened
opened (c, ok _) = (c.trace, ok c)
opened (c, err error) = (c.trace, err error)

unfoldable pub auth_rejected : SmtpAuth → ℕ → MailError
unfolding is_oauth
auth_rejected method code =
    if is_oauth method
    then oauth_authentication_rejected code false
    else plain_authentication_rejected code

-- `authenticate` behind the reply to the last command
unfoldable pub finish_auth : SmtpAuth → Response → Smtp (Unit {0})
unfolding close_with auth_rejected
finish_auth method response =
    if response.code == 235 then return tt else close_with (auth_rejected method response.code)

-- Some servers ask a second time for the response of PLAIN.
unfoldable pub challenge_answer : SmtpAuth → Bytes → Bytes
unfolding oauth_challenge_response
challenge_answer method encoded = elim (oauth_challenge_response method) [
  | some follow_up ↦ follow_up
  | none ↦ encoded ++ crlf
]

unfoldable pub answer_challenge : SmtpAuth → Bytes → Response → Smtp Response
unfolding command challenge_answer
answer_challenge method encoded response =
    if response.code == 334 then command auth (challenge_answer method encoded) else return response

module _ (open_tls : Bytes → Peer → Result Peer MailError) where
  unfoldable pub upgraded :
      SmtpConnection → Result Peer MailError → SmtpConnection × Result (Unit {0}) MailError
  upgraded c (ok peer) = (record c { stream = SmtpStream.tls peer }, ok tt)
  upgraded c (err error) = (record c { stream = SmtpStream.plain none }, err error)

  unfoldable pub upgrade_stream : Bytes → SmtpStream → Smtp (Unit {0})
  unfolding upgraded
  upgrade_stream host (SmtpStream.plain (some tcp)) = λ c. upgraded c (open_tls host tcp)
  upgrade_stream host (SmtpStream.plain none) = fail tls_transport
  upgrade_stream host (SmtpStream.tls peer) = fail tls_transport

  unfoldable pub upgrade_tls : Bytes → Smtp (Unit {0})
  unfolding upgrade_stream
  upgrade_tls host = λ c. upgrade_stream host c.stream c

  unfoldable pub start_if_offered : Bool → Bytes → Smtp (Unit {0})
  unfolding then_with close_with command require_code upgrade_tls say_ehlo
  start_if_offered offered host = if not offered then close_with start_tls_unavailable else (do
    response ← command start_tls (bytes "STARTTLS\r\n")
    require_code start_tls 220 response
    upgrade_tls host
    say_ehlo)

  unfoldable pub start_encryption : Bytes → Smtp (Unit {0})
  unfolding start_if_offered
  start_encryption host = λ c. start_if_offered c.capabilities.starttls host c

  unfoldable pub encrypt_if_required : SmtpTlsMode → Bytes → Smtp (Unit {0})
  unfolding start_encryption
  encrypt_if_required start_tls_required host = start_encryption host
  encrypt_if_required implicit_tls host = return tt

  -- `open_with_tls_config` behind the connection
  unfoldable pub greet : MailConfig → Smtp (Unit {0})
  unfolding read_response require_code say_ehlo encrypt_if_required
  greet cfg = do
    response ← read_response greeting
    require_code greeting 220 response
    say_ehlo
    encrypt_if_required cfg.smtp_tls_mode cfg.smtp_host

  unfoldable pub first_stream : SmtpTlsMode → Bytes → Peer → Result SmtpStream MailError
  first_stream start_tls_required host tcp = ok (SmtpStream.plain (some tcp))
  first_stream implicit_tls host tcp = elim (open_tls host tcp) [
    | ok peer ↦ ok (SmtpStream.tls peer)
    | err error ↦ err error
  ]

  unfoldable pub fresh : SmtpStream → SmtpConnection
  fresh stream = record { stream = stream; capabilities = default; trace = [] }

  module _ (base64 : Bytes → Bytes) where
    unfoldable pub authenticate_if_offered : Bool → MailConfig → SmtpAuth → Smtp (Unit {0})
    unfolding then_with close_with encode_auth command answer_challenge finish_auth
    authenticate_if_offered offered cfg method =
        if not offered then close_with (auth_mechanism_unavailable (mechanism method)) else (do
          encoded ← lift (encode_auth base64 cfg method)
          response ← command auth (bytes "AUTH " ++ mechanism method ++ b' ' ∷ encoded ++ crlf)
          last ← answer_challenge method encoded response
          finish_auth method last)

    unfoldable pub authenticate : MailConfig → SmtpAuth → Smtp (Unit {0})
    unfolding authenticate_if_offered
    authenticate cfg method =
        λ c. authenticate_if_offered (contains c.capabilities.auth (mechanism method)) cfg method c

    unfoldable pub begin_session : MailConfig → SmtpAuth → Smtp (Unit {0})
    unfolding then_with greet authenticate
    begin_session cfg method = do greet cfg; authenticate cfg method

    unfoldable pub open_stream : MailConfig → SmtpAuth → Result SmtpStream MailError → Opened
    unfolding opened begin_session fresh
    open_stream cfg method (err error) = ([], err error)
    open_stream cfg method (ok stream) = opened (begin_session cfg method (fresh stream))

    unfoldable pub open_peer : MailConfig → SmtpAuth → Result Peer MailError → Opened
    unfolding open_stream first_stream
    open_peer cfg method (err error) = ([], err error)
    open_peer cfg method (ok tcp) =
        open_stream cfg method (first_stream cfg.smtp_tls_mode cfg.smtp_host tcp)

    -- `verifier` is whether the platform has one for certificates, `resolved` what the host is.
    unfoldable pub open_authenticated_smtp_blocking :
        Bool → (Bytes → ℕ → Result (List Attempt) IoError) → MailConfig → SmtpAuth → Opened
    unfolding as_str mechanism open_peer connect_tcp
    open_authenticated_smtp_blocking verifier resolved cfg method =
        if not (eqb (as_str cfg.smtp_auth_method) (mechanism method))
        then ([], err wrong_auth_method)
        else if not verifier
        then ([], err tls_validation)
        else open_peer cfg method
            (connect_tcp cfg.smtp_host cfg.smtp_port (resolved cfg.smtp_host cfg.smtp_port))
