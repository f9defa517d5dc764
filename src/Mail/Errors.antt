-- ===== src/Mail/Errors.antt =====
-- `SmtpStage` and `MailError` of src/mail/mod.rs. The sources of an error are only printed, but for the
-- kind of an I/O error; a source that is absent or not is left out.
use Prim.Native.String.{String}
use nvme_disk_mon.Common.{ℕ, Bool, true, false, ◌&&◌, Option, Bytes, ltb, leb}

pub data SmtpStage : Type 0 where
  connect greeting ehlo start_tls auth mail_from rcpt_to : SmtpStage
  data_command data_body final_reply quit : SmtpStage

-- `std::io::ErrorKind`, with the kinds that the program names.
pub data IoError : Type 0 where
  invalid_data unexpected_eof not_connected addr_not_available not_found : IoError
  other_kind : ℕ → IoError

pub data MailError : Type 0 where
  wrong_auth_method reauthorization_required : MailError
  oauth_metadata_invalid : String → MailError
  unsupported_token_endpoint_auth : Bytes → MailError
  oauth_state_mismatch : MailError
  authorization_denied : Bytes → MailError
  oauth_transport : String → MailError
  oauth_server_rejected : ℕ → Option Bytes → MailError
  token_response_invalid : String → MailError
  token_cache_read token_cache_write : Bytes → IoError → MailError
  token_cache_invalid : MailError
  token_cache_security : Bytes → String → MailError
  smtp_connect : Bytes → ℕ → IoError → MailError
  tls_validation tls_transport start_tls_unavailable : MailError
  auth_mechanism_unavailable : Bytes → MailError
  oauth_authentication_rejected : ℕ → Bool → MailError
  plain_authentication_rejected : ℕ → MailError
  smtp_transport : SmtpStage → IoError → MailError
  smtp_rejected : SmtpStage → ℕ → Option ℕ → MailError
  submission_outcome_unknown : MailError
  invalid_message : String → MailError

-- `(400..500).contains(code)`
unfoldable pub is_transient_code : ℕ → Bool
is_transient_code code = leb 400 code && ltb code 500

unfoldable pub is_transient_smtp_error : MailError → Bool
unfolding is_transient_code
is_transient_smtp_error (smtp_connect host port source) = true
is_transient_smtp_error tls_transport = true
is_transient_smtp_error (smtp_transport stage source) = true
is_transient_smtp_error (oauth_authentication_rejected code refresh) = is_transient_code code
is_transient_smtp_error (plain_authentication_rejected code) = is_transient_code code
is_transient_smtp_error (smtp_rejected stage code recipient) = is_transient_code code
is_transient_smtp_error _ = false

unfoldable pub mark_refresh_attempted : MailError → MailError
mark_refresh_attempted (oauth_authentication_rejected code refresh) =
    oauth_authentication_rejected code true
mark_refresh_attempted error = error
