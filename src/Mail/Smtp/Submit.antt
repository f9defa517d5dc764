-- ===== src/Mail/Smtp/Submit.antt =====
-- `submit_mail_blocking` of src/mail/smtp.rs: one message over an authenticated session.
pub mod Keep
pub mod Outcome
use nvme_disk_mon.Common.{
  ℕ, suc, Bool, ◌&&◌, List, [], ◌∷◌, ◌++◌, Option, none, some, Bytes, bytes, Result, ok, err, leb,
  ltb, if◌then◌else◌,
}
use nvme_disk_mon.Mail.Errors.{
  IoError, SmtpStage, mail_from, rcpt_to, data_command, data_body, final_reply, quit, MailError,
  smtp_transport, smtp_rejected, submission_outcome_unknown,
}
use nvme_disk_mon.Mail.Message.{PreparedMessage}
use nvme_disk_mon.Mail.Smtp.{
  SmtpConnection, Smtp, ◌>>=◌, ◌>>◌, return, fail, then_with, map_err, command, read_response,
  shutdown, write_all, write_bytes, flush,
}
use nvme_disk_mon.Mail.Smtp.Open.{require_code}
use nvme_disk_mon.Mail.Smtp.Reply.{Response}
use nvme_disk_mon.Mail.Stuffing.{crlf, dot_stuff}

-- `(200..300).contains(&code)`
unfoldable pub is_positive : ℕ → Bool
is_positive code = leb 200 code && ltb code 300

unfoldable pub require_positive_completion : ℕ → SmtpStage → Option ℕ → Smtp (Unit {0})
unfolding is_positive
require_positive_completion code stage recipient_index =
    if is_positive code then return tt else fail (smtp_rejected stage code recipient_index)

unfoldable pub submit_sender : Bytes → Smtp (Unit {0})
unfolding command require_positive_completion
submit_sender sender = do
  response ← command mail_from (bytes "MAIL FROM:<" ++ sender ++ bytes ">\r\n")
  require_positive_completion response.code mail_from none

-- The loop over the recipients behind the first `index` ones
unfoldable pub submit_recipients : ℕ → List Bytes → Smtp (Unit {0})
unfolding command require_positive_completion
submit_recipients index [] = return tt
submit_recipients index (recipient ∷ recipients) = do
  response ← command rcpt_to (bytes "RCPT TO:<" ++ recipient ++ bytes ">\r\n")
  require_positive_completion response.code rcpt_to (some index)
  submit_recipients (suc index) recipients

abbrev pub terminator : Bytes
terminator = bytes ".\r\n"

unfoldable pub outcome_unknown : IoError → MailError
outcome_unknown source = submission_outcome_unknown

unfoldable pub write_data_terminator : Smtp (Unit {0})
unfolding write_bytes flush outcome_unknown
write_data_terminator = do
  write_bytes (smtp_transport data_body) data_body terminator
  flush outcome_unknown

-- The error of the final reply: a transport that fails leaves the outcome open.
unfoldable pub final_error : MailError → MailError
final_error (smtp_transport stage source) = submission_outcome_unknown
final_error other = other

unfoldable pub send_body : Bytes → Smtp (Unit {0})
unfolding command require_code write_all
send_body formatted = do
  response ← command data_command (bytes "DATA\r\n")
  require_code data_command 354 response
  write_all data_body (dot_stuff formatted)

unfoldable pub read_final_reply : Smtp Response
unfolding map_err final_error read_response
read_final_reply = λ c. map_err final_error (read_response final_reply c)

unfoldable pub accept_final_reply : Response → Smtp ℕ
unfolding then_with require_positive_completion
accept_final_reply response = do
  require_positive_completion response.code final_reply none
  return response.code

unfoldable pub finish_data : Smtp ℕ
unfolding then_with write_data_terminator read_final_reply accept_final_reply
finish_data = do write_data_terminator; response ← read_final_reply; accept_final_reply response

-- The result of QUIT is dropped.
unfoldable pub quit_best_effort : Smtp (Unit {0})
unfolding command shutdown
quit_best_effort = λ c. shutdown (command quit (bytes "QUIT\r\n") c).0

-- The code of the receipt
unfoldable pub submit_mail_blocking : PreparedMessage → Smtp ℕ
unfolding then_with submit_sender submit_recipients send_body finish_data quit_best_effort
submit_mail_blocking message = do
  submit_sender message.envelope_from
  submit_recipients 0 message.envelope_recipients
  send_body message.formatted
  code ← finish_data
  quit_best_effort
  return code
