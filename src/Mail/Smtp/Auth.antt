-- ===== src/Mail/Smtp/Auth.antt =====
-- `SmtpAuth`, `encode_auth` and `gs2_escape` of src/mail/smtp.rs. The encoder for Base64 is a parameter.
use nvme_disk_mon.Common.{
  ℕ, Bool, true, false, ◌&&◌, ◌||◌, [], ◌∷◌, ◌++◌, Option, none, some, Bytes, bytes, Result, ok,
  fail_if, ◌>>=◌, ◌>>◌, ◌==◌, leb, ltb, if◌then◌else◌,
}
use nvme_disk_mon.Config.{MailConfig}
use nvme_disk_mon.Mail.Errors.{MailError, invalid_message}
use nvme_disk_mon.Writer.Names.{print_u32}

pub data SmtpAuth : Type 0 where
  plain : Bytes → Bytes → SmtpAuth
  xoauth2 : Bytes → Bytes → SmtpAuth
  oauth_bearer : Option Bytes → Bytes → SmtpAuth

unfoldable pub mechanism : SmtpAuth → Bytes
mechanism (plain username password) = bytes "PLAIN"
mechanism (xoauth2 username access_token) = bytes "XOAUTH2"
mechanism (oauth_bearer authzid access_token) = bytes "OAUTHBEARER"

unfoldable pub is_oauth : SmtpAuth → Bool
is_oauth (plain username password) = false
is_oauth (xoauth2 username access_token) = true
is_oauth (oauth_bearer authzid access_token) = true

-- What answers the challenge of a server.
unfoldable pub oauth_challenge_response : SmtpAuth → Option Bytes
oauth_challenge_response (xoauth2 username access_token) = some (13 ∷ 10 ∷ [])
oauth_challenge_response (oauth_bearer authzid access_token) = some (bytes "AQ==\r\n")
oauth_challenge_response (plain username password) = none

-- `value.chars().any(char::is_control)`: in UTF-8, 0xc2 begins the controls from U+0080 to U+009F.
unfoldable pub has_control : Bool → Bytes → Bool
has_control after_c2 [] = false
has_control after_c2 (byte ∷ s) =
    let rest = has_control (byte == 0xc2) s in
    (ltb byte 32 || (byte == 127 || (after_c2 && leb byte 0x9f))) || rest

-- `value.replace(c, text)`
unfoldable pub replace : ℕ → Bytes → Bytes → Bytes
replace c text [] = []
replace c text (byte ∷ s) =
    let rest = replace c text s in if byte == c then text ++ rest else byte ∷ rest

unfoldable pub gs2_escape : Bytes → Result Bytes MailError
unfolding has_control replace
gs2_escape value = do
  fail_if (has_control false value) (invalid_message "OAuth authzid")
  ok (replace b',' (bytes "=2C") (replace b'=' (bytes "=3D") value))

-- `authzid.map(gs2_escape).transpose()?`, with the `a=` before it
unfoldable pub escaped_authzid : Option Bytes → Result Bytes MailError
unfolding gs2_escape
escaped_authzid none = ok []
escaped_authzid (some authzid) = do escaped ← gs2_escape authzid; ok (bytes "a=" ++ escaped)

unfoldable pub payload : MailConfig → SmtpAuth → Result Bytes MailError
unfolding escaped_authzid print_u32
payload cfg (plain username password) = ok (0 ∷ (username ++ 0 ∷ password))
payload cfg (xoauth2 username access_token) =
    ok (bytes "user=" ++ username ++ 1 ∷ bytes "auth=Bearer " ++ access_token ++ 1 ∷ 1 ∷ [])
payload cfg (oauth_bearer authzid access_token) = do
  escaped ← escaped_authzid authzid
  ok (
      bytes "n,"
      ++ escaped
      ++ bytes ","
      ++ 1 ∷ bytes "host="
      ++ cfg.smtp_host
      ++ 1 ∷ bytes "port="
      ++ print_u32 cfg.smtp_port
      ++ 1 ∷ bytes "auth=Bearer "
      ++ access_token
      ++ 1 ∷ 1 ∷ [])

unfoldable pub encode_auth : (Bytes → Bytes) → MailConfig → SmtpAuth → Result Bytes MailError
unfolding payload
encode_auth base64 cfg auth = do text ← payload cfg auth; ok (base64 text)
