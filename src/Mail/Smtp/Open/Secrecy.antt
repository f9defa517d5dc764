-- ===== src/Mail/Smtp/Open/Secrecy.antt =====
-- A session of src/mail/smtp.rs authenticates and submits over TLS only.
use nvme_disk_mon.Common.{◌≡◌, refl, Bool, true, false, ◌||◌, all}
use nvme_disk_mon.Mail.Errors.{SmtpStage, ehlo, start_tls}
use nvme_disk_mon.Mail.Message.{PreparedMessage}
use nvme_disk_mon.Mail.Smtp.{Event, sent, replied, closed, SmtpConnection}
use nvme_disk_mon.Mail.Smtp.Keep.{EventTest, IsKept}
use nvme_disk_mon.Mail.Smtp.Open.Keep.{OpenTest}
use nvme_disk_mon.Mail.Smtp.Submit.{submit_mail_blocking}
use nvme_disk_mon.Mail.Smtp.Submit.Keep.{SubmitTest, submit-Tested}

-- The commands that may pass in the clear.
abbrev is_open : SmtpStage → Bool
is_open ehlo = true
is_open start_tls = true
is_open _ = false

-- What was sent was encrypted, or may pass in the clear.
unfoldable pub is_shielded : Event → Bool
is_shielded (sent encrypted stage bytes complete) = encrypted || is_open stage
is_shielded (replied stage code) = true
is_shielded closed = true

shielded_events : EventTest is_shielded
unfolding is_shielded
shielded_events = record { replies = λ stage code. refl; closes = refl }

ehlo_shielded : (encrypted : Bool) → encrypted || true ≡ true
ehlo_shielded true = refl
ehlo_shielded false = refl

instance pub shielded_opening : OpenTest is_shielded
unfolding is_shielded
shielded_opening = record {
  basic = shielded_events;
  ehlos = λ encrypted text complete. ehlo_shielded encrypted;
  starts = λ text complete. refl;
  auths = λ text complete. refl;
}

instance pub shielded_submission : SubmitTest is_shielded
unfolding is_shielded
shielded_submission = record {
  basic = shielded_events;
  commands = λ stage text e complete. refl;
  bodies = λ message complete. refl;
}

pub submit-shielded :
    (message : PreparedMessage) (c : SmtpConnection)
    → IsKept is_shielded true c
    → all is_shielded (submit_mail_blocking message c).0.trace ≡ true
unfolding is_shielded
submit-shielded message c h = (submit-Tested message (λ complete. refl)).run c h
