-- ===== src/Mail/SessionTests.antt =====
-- A session of src/mail with a server that takes the message, and the theorems at it.
use nvme_disk_mon.Common.{
  ℕ, ◌≡◌, refl, true, List, [], ◌∷◌, ◌++◌, none, some, Bytes, bytes, Bytes-discrete, bytes_key,
  ℕ_discrete, Result, ok, err, contains, insert_set, is_ascii_digit, arith,
}
use nvme_disk_mon.Config.{MailConfig, implicit_tls, plain, as_str}
use nvme_disk_mon.Mail.Send.Delivery.{IsOnce, send_mail-IsOnce}
use nvme_disk_mon.Mail.Smtp.Reply.RoundTrip.{wire, IsText, read_response_from-wire}
use nvme_disk_mon.Writer.IoStat.{fields_of, drop_blank, pieces, is_ascii_whitespace}
use nvme_disk_mon.Writer.Names.{is_utf8, is_utf8_from}
use nvme_disk_mon.Mail.Errors.{
  MailError, IoError, is_transient_code, is_transient_smtp_error, mark_refresh_attempted,
}
use nvme_disk_mon.Mail.Message.{PreparedMessage, parse_mailbox, parse_recipients, from_formatted}
use nvme_disk_mon.Mail.Stuffing.{stuff, end_line, dot_stuff}
use nvme_disk_mon.Mail.Smtp.{
  Peer, then_with, map_err, is_tls, peer_of, with_peer, next_outcome, later_outcomes, write_stream,
  flush_stream, io_result, write_bytes, flush, write_all, read_stream, read_peer, read_response,
  command, shutdown,
}
use nvme_disk_mon.Mail.Smtp.Reply.{
  end_of_reader, ends_line, read_smtp_line, parse_code, is_inconsistent, read_fields,
  read_line_fields, read_lines, or_invalid, read_response_from,
}
use nvme_disk_mon.Mail.Smtp.Ehlo.{
  to_ascii_lowercase, eq_ignore_ascii_case, add_mechanism, add_mechanisms, add_starttls, add_words,
  add_lines, from_ehlo,
}
use nvme_disk_mon.Mail.Smtp.Auth.{
  mechanism, is_oauth, oauth_challenge_response, has_control, replace, gs2_escape, escaped_authzid,
  payload, encode_auth,
}
use nvme_disk_mon.Mail.Smtp.Open.{
  Attempt, first_error, set_timeouts, last_error_or, connect_addresses, connect_tcp, close_with,
  require_code, set_capabilities, say_ehlo, opened, auth_rejected, finish_auth, challenge_answer,
  answer_challenge, upgraded, upgrade_stream, upgrade_tls, start_if_offered, start_encryption,
  encrypt_if_required, greet, first_stream, fresh, authenticate_if_offered, authenticate,
  begin_session, open_stream, open_peer, open_authenticated_smtp_blocking,
}
use nvme_disk_mon.Mail.Smtp.Submit.{
  is_positive, require_positive_completion, submit_sender, submit_recipients, outcome_unknown,
  write_data_terminator, final_error, send_body, read_final_reply, accept_final_reply, finish_data,
  quit_best_effort, submit_mail_blocking,
}
use nvme_disk_mon.Mail.Send.{
  OAuthTokenMode, Outbox, retry_delay_ms, is_rejected_token, retry_or_return, pause, retry_loop,
  mark_result, submit_opened, marked_attempt, after_refresh, wants_refresh, send_loop,
  send_acquired, send_oauth_mail_with, wait_before_retry, auth_of, oauth_smtp_auth, plain_smtp_auth,
  log_session, relog, submit_in, quit_in, open_with, acquire_in, open_with_oauth_token,
  authenticate_plain, send_oauth_mail, plain_attempt, send_plain_mail, send_by, send_mail,
  validate_by, validate_mail,
}

abbrev mail_config : MailConfig
mail_config = record {
  smtp_host = bytes "smtp.example.test";
  smtp_port = 465;
  smtp_auth_method = plain;
  smtp_tls_mode = implicit_tls;
  send_as = bytes "a@example.test";
  send_to = bytes "b@example.test" ∷ [];
  oauth = none;
  plain = some (record { plain_username = bytes "u"; plain_app_password = bytes "p" });
}

abbrev message : PreparedMessage
message = record {
  envelope_from = bytes "a@example.test";
  envelope_recipients = bytes "b@example.test" ∷ [];
  formatted = bytes "hi\r\n";
}

abbrev willing : Peer
willing = record {
  reader = record {
    incoming =
        bytes
          "220 s\r\n250-s\r\n250 AUTH PLAIN\r\n235 a\r\n250 b\r\n250 c\r\n354 d\r\n250 e\r\n221 f\r\n";
    ending = none;
  };
  writes = [];
  flushes = [];
}

abbrev attempt_of : Peer → Attempt
attempt_of peer = record { connected = ok peer; read_timeout = none; write_timeout = none }

abbrev network : ℕ → Bytes → ℕ → Result (List Attempt) IoError
network session host port = ok (attempt_of willing ∷ [])

abbrev no_token : OAuthTokenMode → Outbox → Result Bytes MailError
no_token mode box = err MailError.reauthorization_required

abbrev trusted : Bytes → Peer → Result Peer MailError
trusted host peer = ok peer

abbrev same_bytes : Bytes → Bytes
same_bytes text = text

sent_once :
    (send_mail trusted same_bytes true network no_token mail_config message
      (record { sessions = []; delays = [] })).1
    ≡ ok 250
unfolding Bytes-discrete ℕ_discrete as_str contains insert_set is_ascii_digit is_utf8 is_utf8_from
    fields_of drop_blank pieces is_ascii_whitespace is_transient_code is_transient_smtp_error
    mark_refresh_attempted parse_mailbox parse_recipients from_formatted stuff end_line dot_stuff
    then_with map_err is_tls peer_of with_peer next_outcome later_outcomes write_stream flush_stream
    io_result write_bytes flush write_all read_stream read_peer read_response command shutdown
    end_of_reader ends_line read_smtp_line parse_code is_inconsistent read_fields read_line_fields
    read_lines or_invalid read_response_from to_ascii_lowercase eq_ignore_ascii_case add_mechanism
    add_mechanisms add_starttls add_words add_lines from_ehlo mechanism is_oauth
    oauth_challenge_response has_control replace gs2_escape escaped_authzid payload encode_auth
    first_error set_timeouts last_error_or connect_addresses connect_tcp close_with require_code
    set_capabilities say_ehlo opened auth_rejected finish_auth challenge_answer answer_challenge
    upgraded upgrade_stream upgrade_tls start_if_offered start_encryption encrypt_if_required greet
    first_stream fresh authenticate_if_offered authenticate begin_session open_stream open_peer
    open_authenticated_smtp_blocking is_positive require_positive_completion submit_sender
    submit_recipients outcome_unknown write_data_terminator final_error send_body read_final_reply
    accept_final_reply finish_data quit_best_effort submit_mail_blocking retry_delay_ms
    is_rejected_token retry_or_return pause retry_loop mark_result submit_opened marked_attempt
    after_refresh wants_refresh send_loop send_acquired send_oauth_mail_with wait_before_retry
    auth_of oauth_smtp_auth plain_smtp_auth log_session relog submit_in quit_in open_with acquire_in
    open_with_oauth_token authenticate_plain send_oauth_mail plain_attempt send_plain_mail send_by
    send_mail validate_by validate_mail
sent_once = refl

send_mail-IsOnce_example :
    IsOnce
      (send_mail trusted same_bytes true network no_token mail_config message
        (record { sessions = []; delays = [] })).0.sessions
send_mail-IsOnce_example =
    send_mail-IsOnce trusted same_bytes true network no_token mail_config message

IsText-a : IsText (bytes "a")
unfolding is_utf8 is_utf8_from
IsText-a = record { one_line = tt; utf8 = refl; fits = omega arith }

read_response_from-wire_example :
    read_response_from
      (record { incoming = wire 250 (bytes "a" ∷ []) (bytes "a") ++ bytes "x"; ending = none })
    ≡ ok (record { code = 250; lines = bytes "a" ∷ bytes "a" ∷ [] }, bytes "x")
read_response_from-wire_example =
    read_response_from-wire none 250 (bytes "a" ∷ []) (bytes "a") (bytes "x") (omega arith)
      (IsText-a, tt) IsText-a (omega arith)
