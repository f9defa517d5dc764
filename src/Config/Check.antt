-- ===== src/Config/Check.antt =====
-- `validate_config` of src/config.rs: its checks in the order of the source, with the error of each.
pub mod Accepts
use Prim.Native.String.{String}
use nvme_disk_mon.Common.{
  ℕ, suc, ◌*◌, Bool, true, false, not, ◌||◌, List, [], ◌∷◌, Option, none, some, Bytes, bytes,
  Result, ok, err, fail_if, ok_or, ◌>>=◌, ◌>>◌, ◌==◌, eqb, bytes_key, any, is_empty, is_some, get,
  insert, keys, if◌then◌else◌,
}
use nvme_disk_mon.Common.Int.{checked_unsigned, i64_of_ℕ, u64_end, u32_end}
use nvme_disk_mon.Config.{
  DiskConfig, SmtpAuthMethod, plain, xoauth2, oauth_bearer, OAuthConfig, PlainConfig, MailConfig,
  Config, ConfigError, unsupported_config_schema_version, missing_field, invalid_value,
  duplicate_device, incompatible_options,
}
use nvme_disk_mon.Config.Paths.{Component, path_key, is_blank, path_components, is_by_id_path}
use nvme_disk_mon.Monitor.Threshold.{is_finite, is_below_zero}

abbrev pub Checked : Type 0
Checked = Result (Unit {0}) ConfigError

-- `if invalid { return Err(ConfigError::InvalidValue { field, rule }) }`
unfoldable pub refuse : Bool → String → String → Checked
refuse invalid field rule = fail_if invalid (invalid_value field rule)

abbrev pub supported_config_schema : ℕ
supported_config_schema = 1

unfoldable pub check_general : Config → Checked
unfolding refuse
check_general config = do
  fail_if (not (config.general.schema_version == supported_config_schema))
      (unsupported_config_schema_version config.general.schema_version supported_config_schema)
  refuse (is_empty config.device.disk_list) "device.disk_list" "contain at least one device"
  refuse (is_blank config.device.host) "device.host" "not be empty"

unfoldable pub check_names : DiskConfig → Checked
unfolding refuse
check_names disk = do
  refuse (is_blank disk.label) "device.disk_list[].label" "not be empty"
  refuse (is_empty disk.serial) "device.disk_list[].serial" "not be empty"
  refuse (not (is_by_id_path disk.path)) "device.disk_list[].path"
      "be a direct path below /dev/disk/by-id"

-- `hours.checked_mul(3_600_000).and_then(|value| i64::try_from(value).ok())`
unfoldable pub fits_milliseconds : ℕ → Bool
fits_milliseconds hours = elim (checked_unsigned u64_end (hours * 3_600_000)) [
  | none ↦ false
  | some value ↦ is_some (i64_of_ℕ value)
]

-- `hours.checked_mul(60).and_then(|value| u32::try_from(value).ok())`
unfoldable pub fits_minutes : ℕ → Bool
fits_minutes hours = elim (checked_unsigned u64_end (hours * 60)) [
  | none ↦ false
  | some value ↦ is_some (checked_unsigned u32_end value)
]

unfoldable pub check_limits : DiskConfig → Checked
unfolding refuse fits_milliseconds fits_minutes
check_limits disk = do
  refuse
      (disk.detect_window_hr == 0
        || (not (fits_milliseconds disk.detect_window_hr)
            || not (fits_minutes disk.detect_window_hr)))
      "device.disk_list[].detect_window_hr"
      "be positive and convertible to milliseconds and ranking minutes"
  refuse (not (is_finite disk.w_delta_threshold_gib) || is_below_zero disk.w_delta_threshold_gib)
      "device.disk_list[].w_delta_threshold_gib" "be finite and non-negative"

-- `if let Some(first_index) = paths.insert(..)`
unfoldable pub check_path : Option ℕ → ℕ → Checked
check_path none index = ok tt
check_path (some first_index) index = err (duplicate_device first_index index)

-- The loop over the devices behind the first `index` ones, whose paths stand in `paths`.
unfoldable pub check_disks : List (List Component × ℕ) → ℕ → List DiskConfig → Checked
unfolding check_names check_path check_limits
check_disks paths index [] = ok tt
check_disks paths index (disk ∷ disks) =
    let path = path_components disk.path in
    let rest = check_disks (insert paths path index) (suc index) disks in
    do check_names disk; check_path (get paths path) index; check_limits disk; rest

unfoldable pub check_mail : Config → Checked
unfolding refuse
check_mail config = do
  refuse
      (config.writer_rank.rank_length == 0
        || not (is_some (i64_of_ℕ config.writer_rank.rank_length)))
      "writer_rank.rank_length" "be positive and fit in a SQLite INTEGER"
  refuse (is_blank config.mail.smtp_host) "mail.smtp_host" "not be empty"
  refuse (config.mail.smtp_port == 0) "mail.smtp_port" "be in the range 1 through 65535"
  refuse (is_blank config.mail.send_as) "mail.send_as" "not be empty"
  refuse (is_empty config.mail.send_to || any is_blank config.mail.send_to) "mail.send_to"
      "contain only non-empty recipients"

unfoldable pub check_plain : PlainConfig → Checked
unfolding refuse
check_plain credentials = do
  refuse (is_empty credentials.plain_username) "mail.plain.plain_username" "not be empty"
  refuse (is_empty credentials.plain_app_password) "mail.plain.plain_app_password" "not be empty"

-- The parameters of the authorization request that the program sets.
unfoldable pub is_fixed_parameter : Bytes → Bool
is_fixed_parameter key =
    any (λ name. eqb key (bytes name))
      ("response_type" ∷ "client_id" ∷ "redirect_uri" ∷ "scope" ∷ "state" ∷ "code_challenge"
        ∷ "code_challenge_method" ∷ [])

unfoldable pub check_oauth : OAuthConfig → Checked
unfolding refuse
check_oauth oauth = do
  refuse (is_blank oauth.oauth_metadata_url) "mail.oauth.oauth_metadata_url" "not be empty"
  refuse (is_empty oauth.oauth_scopes || any is_blank oauth.oauth_scopes) "mail.oauth.oauth_scopes"
      "contain only non-empty scopes"
  refuse (is_blank oauth.oauth_username) "mail.oauth.oauth_username" "not be empty"
  refuse (is_empty oauth.oauth_app_id) "mail.oauth.oauth_app_id" "not be empty"
  refuse (is_empty oauth.oauth_client_secret) "mail.oauth.oauth_client_secret" "not be empty"
  refuse (any is_fixed_parameter (keys oauth.oauth_authorization_extra_params))
      "mail.oauth.oauth_authorization_extra_params"
      "not override fixed OAuth authorization parameters"

-- The arm of a method with a token; `option` is the name of the method in the error.
unfoldable pub check_oauth_method : String → MailConfig → Checked
unfolding check_oauth
check_oauth_method option mail = do
  fail_if (is_some mail.plain) (incompatible_options option "mail.plain")
  oauth ← ok_or mail.oauth (missing_field "mail.oauth")
  check_oauth oauth

unfoldable pub check_plain_method : MailConfig → Checked
unfolding check_plain
check_plain_method mail = do
  fail_if (is_some mail.oauth) (incompatible_options "mail.smtp_auth_method=PLAIN" "mail.oauth")
  credentials ← ok_or mail.plain (missing_field "mail.plain")
  check_plain credentials

unfoldable pub check_auth : SmtpAuthMethod → MailConfig → Checked
unfolding check_plain_method check_oauth_method
check_auth plain mail = check_plain_method mail
check_auth xoauth2 mail = check_oauth_method "mail.smtp_auth_method=XOAUTH2" mail
check_auth oauth_bearer mail = check_oauth_method "mail.smtp_auth_method=OAUTHBEARER" mail

unfoldable pub validate_config : Config → Checked
unfolding check_general check_disks check_mail check_auth
validate_config config = do
  check_general config
  check_disks [] 0 config.device.disk_list
  check_mail config
  check_auth config.mail.smtp_auth_method config.mail
