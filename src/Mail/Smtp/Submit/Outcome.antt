-- ===== src/Mail/Smtp/Submit/Outcome.antt =====
-- What the server can have made of a submission of src/mail/smtp.rs that failed.
use nvme_disk_mon.Common.{
  ℕ, ◌≡◌, refl, either, ◌⊎◌, inl, inr, Bool, true, false, not, List, Option, none, some, Bytes,
  Result, ok, err, all, any, arith,
}
use nvme_disk_mon.Mail.Errors.{
  SmtpStage, data_body, final_reply, IoError, MailError, smtp_transport, is_transient_code,
  is_transient_smtp_error,
}
use nvme_disk_mon.Mail.Message.{PreparedMessage}
use nvme_disk_mon.Mail.Smtp.{
  Peer, Event, sent, replied, SmtpConnection, Smtp, return, shutdown, ◌>>=◌, then_with, map_err,
  peer_of, write_stream, flush_stream, io_result, write_bytes, flush, read_response, read_peer,
  read_stream, next_outcome,
}
use nvme_disk_mon.Mail.Smtp.Keep.{EventTest, IsKept, Post, Triple}
use nvme_disk_mon.Mail.Smtp.Open.Keep.{OpenTest}
use nvme_disk_mon.Mail.Smtp.Reply.{Response, read_response_from}
use nvme_disk_mon.Mail.Smtp.Submit.{
  is_positive, require_positive_completion, submit_mail_blocking, finish_data, quit_best_effort,
  read_final_reply, accept_final_reply, write_data_terminator, final_error, outcome_unknown,
  terminator,
}
use nvme_disk_mon.Mail.Smtp.Submit.Keep.{
  is_body, SubmitTest, submit_sender-IsKept, submit_recipients-IsKept, send_body-IsKept,
}
use nvme_disk_mon.Mail.Stuffing.{dot_stuff}
use nvme_disk_mon.Mail.Stuffing.Received.{has_lone_dot, dot_stuff-received}

-- The server has seen the end of the message: bytes of the body with a line of a single dot.
unfoldable pub ends_message : Event → Bool
ends_message (sent encrypted data_body bytes true) = has_lone_dot true bytes
ends_message _ = false

-- The server has refused the message for now.
unfoldable pub refuses_message : Event → Bool
unfolding is_transient_code
refuses_message (replied final_reply code) = is_transient_code code
refuses_message _ = false

unfoldable pub is_quiet : Event → Bool
unfolding ends_message
is_quiet event = not (ends_message event)

-- The server does not have the message.
abbrev pub IsSettled : List Event → Type 0
IsSettled trace = (all is_quiet trace ≡ true) ⊎ (any refuses_message trace ≡ true)

quiet_events : EventTest is_quiet
unfolding is_quiet ends_message
quiet_events = record { replies = λ stage code. refl; closes = refl }

quiet_sent :
    (encrypted : Bool) (stage : SmtpStage) (bytes : Bytes) (complete : Bool)
    → is_body stage ≡ false
    → is_quiet (sent encrypted stage bytes complete) ≡ true
unfolding is_quiet ends_message
quiet_sent encrypted stage bytes complete h = ground arith

quiet_body :
    (encrypted : Bool) (message : Bytes) (complete : Bool)
    → is_quiet (sent encrypted data_body (dot_stuff message) complete) ≡ true
unfolding is_quiet ends_message
quiet_body encrypted message true = ground (arith, (dot_stuff-received message).0)
quiet_body encrypted message false = refl

instance pub quiet_opening : OpenTest is_quiet
quiet_opening = record {
  basic = quiet_events;
  ehlos = λ encrypted text complete. quiet_sent encrypted _ text complete refl;
  starts = λ text complete. quiet_sent _ _ text complete refl;
  auths = λ text complete. quiet_sent _ _ text complete refl;
}

instance quiet_submission : SubmitTest is_quiet
quiet_submission = record {
  basic = quiet_events;
  commands = λ stage text e complete. quiet_sent _ stage text complete e;
  bodies = λ message complete. quiet_body _ message complete;
}

-- A failure that the sender retries has left the server without the message.
abbrev pub IsSafe : {A : Type 0} → SmtpConnection × Result A MailError → Type 0
IsSafe (c, ok a) = Unit
IsSafe (c, err error) = is_transient_smtp_error error ≡ true → IsSettled c.trace

IsSafe-bind :
    {A B : Type 0} (f : A → Smtp B) (r : SmtpConnection × Result A MailError)
    → Post is_quiet true r
    → ((a : A) (c : SmtpConnection) → IsKept is_quiet true c → IsSafe (f a c))
    → IsSafe (then_with f r)
unfolding then_with
IsSafe-bind f (c, ok a) h k = k a c h
IsSafe-bind f (c, err error) h k = λ _. inl h

IsSafe-then :
    {A B : Type 0} (f : A → Smtp B) (r : SmtpConnection × Result A MailError)
    → IsSafe r
    → ((a : A) (c : SmtpConnection) → IsSafe (f a c))
    → IsSafe (then_with f r)
unfolding then_with
IsSafe-then f (c, ok a) h k = k a c
IsSafe-then f (c, err error) h k = h

positive-IsSafe :
    (code : ℕ) (c : SmtpConnection)
    → (is_transient_code code ≡ true → any refuses_message c.trace ≡ true)
    → IsSafe (require_positive_completion code final_reply none c)
unfolding require_positive_completion is_transient_smtp_error
positive-IsSafe code c h =
    either (λ (m : Smtp (Unit {0})). IsSafe (m c)) (is_positive code) tt (λ t. inr (h t))

-- A terminator that was cut off does not end the message.
write_terminator-IsSafe :
    (c : SmtpConnection) (p : Option Peer)
    → all is_quiet c.trace ≡ true
    → IsSafe (io_result (smtp_transport data_body) (write_stream data_body terminator p c))
unfolding io_result write_stream is_quiet ends_message
write_terminator-IsSafe c none h = λ _. inl h
write_terminator-IsSafe c (some p) h = go (next_outcome p.writes) refl
  where
    go :
        (o : Option IoError)
        → next_outcome p.writes ≡ o
        → IsSafe (
            io_result
              (smtp_transport data_body)
              ((write_stream data_body terminator (some p) c).0, o))
    go none e = tt
    go (some error) e = λ _. inl (ground (arith, h))

flush-IsSafe : (c : SmtpConnection) → IsSafe (flush outcome_unknown c)
unfolding flush outcome_unknown is_transient_smtp_error
flush-IsSafe c = go (flush_stream (peer_of c.stream) c)
  where
    go : (r : SmtpConnection × Option IoError) → IsSafe (io_result outcome_unknown r)
    go (d, none) = tt
    go (d, some e) = λ t. ground arith

write_data_terminator-IsSafe :
    (c : SmtpConnection) → all is_quiet c.trace ≡ true → IsSafe (write_data_terminator c)
unfolding write_data_terminator write_bytes
write_data_terminator-IsSafe c h =
    IsSafe-then _
      (io_result (smtp_transport data_body)
        (write_stream data_body terminator (peer_of c.stream) c))
      (write_terminator-IsSafe c (peer_of c.stream) h) (λ _ d. flush-IsSafe d)

accept-IsSafe :
    (response : Response) (c : SmtpConnection)
    → (is_transient_code response.code ≡ true → any refuses_message c.trace ≡ true)
    → IsSafe (accept_final_reply response c)
unfolding accept_final_reply
accept-IsSafe response c h =
    IsSafe-then (λ _. return response.code)
      (require_positive_completion response.code final_reply none c)
      (positive-IsSafe response.code c h) (λ _ d. tt)

read_stream-refused :
    (p : Peer) (c : SmtpConnection) (r : Result (Response × Bytes) IoError)
    → IsSafe (then_with accept_final_reply (map_err final_error (read_stream final_reply p c r)))
unfolding then_with map_err final_error read_stream is_transient_smtp_error refuses_message
read_stream-refused p c (err e) = λ t. ground arith
read_stream-refused p c (ok (response, rest)) = accept-IsSafe response _ (λ t. ground (arith, t))

read_peer-refused :
    (p : Option Peer) (c : SmtpConnection)
    → IsSafe (then_with accept_final_reply (map_err final_error (read_peer final_reply p c)))
unfolding read_peer then_with map_err final_error is_transient_smtp_error
read_peer-refused none c = λ t. ground arith
read_peer-refused (some p) c = read_stream-refused p c (read_response_from p.reader)

finish_data-IsSafe : (c : SmtpConnection) → IsKept is_quiet true c → IsSafe (finish_data c)
unfolding finish_data read_final_reply read_response
finish_data-IsSafe c h =
    IsSafe-then (λ _ d. then_with accept_final_reply (read_final_reply d)) (write_data_terminator c)
      (write_data_terminator-IsSafe c h.tested) (λ _ d. read_peer-refused (peer_of d.stream) d)

quit-IsSafe :
    (code : ℕ) (c : SmtpConnection) → IsSafe (then_with (λ _. return code) (quit_best_effort c))
unfolding then_with quit_best_effort shutdown
quit-IsSafe code c = tt

-- The steps of a submission, where a failure counts.
record Safe {A : Type 0} (m : Smtp A) : Type 0 where
  run : (c : SmtpConnection) → IsKept is_quiet true c → IsSafe (m c)

Safe-bind :
    {A B : Type 0} {m : Smtp A} {f : A → Smtp B}
    → Triple is_quiet true m true
    → ((a : A) → Safe (f a))
    → Safe (m >>= f)
Safe-bind {m = m} {f = f} p q = record {
  run = λ c h. IsSafe-bind f (m c) (p.run c h) (λ a d k. (q a).run d k);
}

finish-Safe :
    Safe
      (λ c. then_with (λ code d. then_with (λ _. return code) (quit_best_effort d)) (finish_data c))
finish-Safe = record {
  run = λ c h.
      IsSafe-then (λ code d. then_with (λ _. return code) (quit_best_effort d)) (finish_data c)
        (finish_data-IsSafe c h) (λ code d. quit-IsSafe code d);
}

submit-Safe : (message : PreparedMessage) → Safe (submit_mail_blocking message)
unfolding submit_mail_blocking
submit-Safe message = Safe-bind (submit_sender-IsKept message.envelope_from) (λ _.
    Safe-bind (submit_recipients-IsKept 0 message.envelope_recipients)
      (λ _. Safe-bind (send_body-IsKept message.formatted) (λ _. finish-Safe)))

-- x
pub submit-IsSafe :
    (message : PreparedMessage) (c : SmtpConnection)
    → IsKept is_quiet true c
    → IsSafe (submit_mail_blocking message c)
submit-IsSafe message c h = (submit-Safe message).run c h
