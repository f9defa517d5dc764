-- ===== src/Mail/Message.antt =====
-- `PreparedMessage` of src/mail/mod.rs. The parser of a mailbox is a parameter, which gives the address
-- that `mailbox.email.to_string()` prints.
use Prim.Native.String.{String}
use nvme_disk_mon.Common.{
  List, [], ◌∷◌, Option, Bytes, Result, ok, fail_if, ok_or, ◌>>=◌, ◌>>◌, is_empty,
}
use nvme_disk_mon.Mail.Errors.{MailError, invalid_message}

pub record PreparedMessage : Type 0 where
  pub envelope_from : Bytes
  pub envelope_recipients : List Bytes
  pub formatted : Bytes

module _ (parse : Bytes → Option Bytes) where
  unfoldable pub parse_mailbox : Bytes → String → Result Bytes MailError
  parse_mailbox value field = ok_or (parse value) (invalid_message field)

  unfoldable pub parse_recipients : List Bytes → Result (List Bytes) MailError
  unfolding parse_mailbox
  parse_recipients [] = ok []
  parse_recipients (recipient ∷ recipients) = do
    address ← parse_mailbox recipient "envelope_recipient"
    addresses ← parse_recipients recipients
    ok (address ∷ addresses)

  unfoldable pub from_formatted : Bytes → List Bytes → Bytes → Result PreparedMessage MailError
  unfolding parse_mailbox parse_recipients
  from_formatted envelope_from envelope_recipients formatted = do
    sender ← parse_mailbox envelope_from "envelope_from"
    fail_if (is_empty envelope_recipients) (invalid_message "envelope_recipients")
    recipients ← parse_recipients envelope_recipients
    fail_if (is_empty formatted) (invalid_message "RFC 5322 message")
    ok (record { envelope_from = sender; envelope_recipients = recipients; formatted = formatted })
