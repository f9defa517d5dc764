-- ===== src/Config.antt =====
-- src/config.rs: the configuration of the daemon. `String`, `PathBuf` and `SecretString` are bytes.
pub mod Paths
pub mod Check
pub mod Load
mod Tests
use Prim.Native.String.{String}
use nvme_disk_mon.Common.{ℕ, List, Option, Bytes, bytes}

pub record GeneralConfig : Type 0 where
  pub schema_version : ℕ

-- `w_delta_threshold_gib` is the bit pattern of an f64.
pub record DiskConfig : Type 0 where
  pub label : Bytes
  pub serial : Bytes
  pub path : Bytes
  pub detect_window_hr : ℕ
  pub w_delta_threshold_gib : ℕ

pub record DeviceConfig : Type 0 where
  pub host : Bytes
  pub disk_list : List DiskConfig

pub record WriterRankConfig : Type 0 where
  pub rank_length : ℕ

pub data SmtpAuthMethod : Type 0 where
  plain xoauth2 oauth_bearer : SmtpAuthMethod

unfoldable pub as_str : SmtpAuthMethod → Bytes
as_str plain = bytes "PLAIN"
as_str xoauth2 = bytes "XOAUTH2"
as_str oauth_bearer = bytes "OAUTHBEARER"

pub data SmtpTlsMode : Type 0 where
  start_tls_required implicit_tls : SmtpTlsMode

pub record OAuthConfig : Type 0 where
  pub oauth_metadata_url : Bytes
  pub oauth_scopes : List Bytes
  pub oauth_username : Bytes
  pub oauth_app_id : Bytes
  pub oauth_client_secret : Bytes
  pub oauth_authorization_extra_params : List (Bytes × Bytes)

pub record PlainConfig : Type 0 where
  pub plain_username : Bytes
  pub plain_app_password : Bytes

pub record MailConfig : Type 0 where
  pub smtp_host : Bytes
  pub smtp_port : ℕ
  pub smtp_auth_method : SmtpAuthMethod
  pub smtp_tls_mode : SmtpTlsMode
  pub send_as : Bytes
  pub send_to : List Bytes
  pub oauth : Option OAuthConfig
  pub plain : Option PlainConfig

pub record Config : Type 0 where
  pub general : GeneralConfig
  pub device : DeviceConfig
  pub writer_rank : WriterRankConfig
  pub mail : MailConfig

-- The I/O error of `Read`, which is only printed, is left out.
pub data ConfigError : Type 0 where
  read : Bytes → ConfigError
  invalid_embedded_checksum checksum_mismatch : ConfigError
  syntax : Option ℕ → Option ℕ → ConfigError
  unsupported_config_schema_version : ℕ → ℕ → ConfigError
  missing_field : String → ConfigError
  invalid_value : String → String → ConfigError
  duplicate_device : ℕ → ℕ → ConfigError
  incompatible_options : String → String → ConfigError
