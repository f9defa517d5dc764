-- ===== src/Mail/Smtp/Submit/Keep.antt =====
-- What `submit_mail_blocking` of src/mail/smtp.rs keeps, for a test that its commands pass.
use nvme_disk_mon.Common.{
  ℕ, suc, ◌≡◌, refl, Bool, true, false, List, [], ◌∷◌, Option, none, some, Bytes, bytes, Result, ok,
  err, all, arith,
}
use nvme_disk_mon.Mail.Errors.{
  SmtpStage, mail_from, rcpt_to, data_command, data_body, final_reply, quit, MailError,
  smtp_transport,
}
use nvme_disk_mon.Mail.Message.{PreparedMessage}
use nvme_disk_mon.Mail.Smtp.{
  Event, SmtpConnection, map_err, command, read_response, shutdown, then_with, return,
}
use nvme_disk_mon.Mail.Smtp.Keep.{
  EventTest, Sendable, IsKept, Post, Triple, Triple-bind, Triple-if, Triple-return, Triple-fail,
  Triple-fail_if, Tested, Tested-bind, command-IsKept, read_response-IsKept, write_all-IsKept,
  write_bytes-IsKept, flush-IsKept,
}
use nvme_disk_mon.Mail.Smtp.Open.{require_code}
use nvme_disk_mon.Mail.Smtp.Reply.{Response}
use nvme_disk_mon.Mail.Smtp.Submit.{
  is_positive, require_positive_completion, submit_sender, submit_recipients, terminator,
  outcome_unknown, write_data_terminator, final_error, send_body, read_final_reply,
  accept_final_reply, finish_data, quit_best_effort, submit_mail_blocking,
}
use nvme_disk_mon.Mail.Stuffing.{dot_stuff}

abbrev pub is_body : SmtpStage → Bool
is_body data_body = true
is_body _ = false

-- A test that lets the commands pass over TLS, and a body whose dots are stuffed.
pub record SubmitTest (test : Event → Bool) : Type 0 where
  pub basic : EventTest test
  pub commands :
      (stage : SmtpStage) (text : Bytes) → is_body stage ≡ false → Sendable test true stage text
  pub bodies : (message : Bytes) → Sendable test true data_body (dot_stuff message)

map_err-Post :
    {A : Type 0} (test : Event → Bool) (f : MailError → MailError)
    (r : SmtpConnection × Result A MailError)
    → Post test true r
    → Post test true (map_err f r)
unfolding map_err
map_err-Post test f (c, ok a) h = h
map_err-Post test f (c, err e) h = h

quit-first :
    (test : Event → Bool) (r : SmtpConnection × Result Response MailError)
    → Post test true r
    → all test r.0.trace ≡ true
quit-first test (c, ok a) h = h.tested
quit-first test (c, err e) h = h

module _ {test : Event → Bool} ⦃laws : SubmitTest test⦄ where
  instance abbrev basic_laws : EventTest test
  basic_laws = laws.basic

  pub positive-IsKept :
      (code : ℕ) (stage : SmtpStage) (index : Option ℕ)
      → Triple test true (require_positive_completion code stage index) true
  unfolding require_positive_completion
  positive-IsKept code stage index = Triple-if (is_positive code) (Triple-return tt) (Triple-fail _)

  pub submit_sender-IsKept : (sender : Bytes) → Triple test true (submit_sender sender) true
  unfolding submit_sender
  submit_sender-IsKept sender =
      Triple-bind (command-IsKept true mail_from _ (laws.commands mail_from _ refl))
        (λ r. positive-IsKept r.code mail_from none)

  pub submit_recipients-IsKept :
      (index : ℕ) (recipients : List Bytes)
      → Triple test true (submit_recipients index recipients) true
  unfolding submit_recipients
  submit_recipients-IsKept index [] = Triple-return tt
  submit_recipients-IsKept index (recipient ∷ recipients) =
      Triple-bind (command-IsKept true rcpt_to _ (laws.commands rcpt_to _ refl)) (λ r.
        Triple-bind (positive-IsKept r.code rcpt_to (some index))
          (λ _. submit_recipients-IsKept (suc index) recipients))

  pub send_body-IsKept : (formatted : Bytes) → Triple test true (send_body formatted) true
  unfolding send_body require_code
  send_body-IsKept formatted =
      Triple-bind (command-IsKept true data_command _ (laws.commands data_command _ refl)) (λ r.
        Triple-bind (Triple-fail_if _ _)
          (λ _. write_all-IsKept true data_body (dot_stuff formatted) (laws.bodies formatted)))

  -- Where the end of the message passes the test too.
  pub finish_data-IsKept :
      Sendable test true data_body terminator → Triple test true finish_data true
  unfolding finish_data write_data_terminator read_final_reply accept_final_reply
  finish_data-IsKept ends =
      Triple-bind
        (Triple-bind (write_bytes-IsKept true (smtp_transport data_body) data_body terminator ends)
          (λ _. flush-IsKept true outcome_unknown))
        (λ _.
          Triple-bind
            (record {
              run = λ c h.
                  map_err-Post test final_error (read_response final_reply c)
                    ((read_response-IsKept true final_reply).run c h);
            })
            (λ last.
              Triple-bind (positive-IsKept last.code final_reply none)
                (λ _. Triple-return last.code)))

  pub quit-tested :
      (c : SmtpConnection) → IsKept test true c → all test (quit_best_effort c).0.trace ≡ true
  unfolding quit_best_effort shutdown
  quit-tested c h =
      let quitting =
        (command-IsKept true quit (bytes "QUIT\r\n") (laws.commands quit _ refl)).run c h in
      ground
        (arith, quit-first test (command quit (bytes "QUIT\r\n") c) quitting, laws.basic.closes)

  quit-Tested :
      (code : ℕ) → Tested test true (λ c. then_with (λ _. return code) (quit_best_effort c))
  unfolding then_with quit_best_effort shutdown
  quit-Tested code = record { run = λ c h. quit-tested c h }

  pub submit-Tested :
      (message : PreparedMessage)
      → Sendable test true data_body terminator
      → Tested test true (submit_mail_blocking message)
  unfolding submit_mail_blocking
  submit-Tested message ends = Tested-bind (submit_sender-IsKept message.envelope_from) (λ _.
      Tested-bind (submit_recipients-IsKept 0 message.envelope_recipients) (λ _.
        Tested-bind (send_body-IsKept message.formatted)
          (λ _. Tested-bind (finish_data-IsKept ends) (λ code. quit-Tested code))))
