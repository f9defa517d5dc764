-- ===== src/Config/Load.antt =====
-- `load_config_from` of src/config.rs. The file system, SHA-256 and the TOML parser are parameters:
-- `read_file` is `std::fs::read`, `parse_value` and `parse_config` are `toml::from_str` for a value and
-- for a `Config`, each with the offset of an error, and `value_get` and `as_array` are those of a
-- `toml::Value`.
pub mod Sound
use Prim.Native.String.{String}
use nvme_disk_mon.Common.{
  ℕ, suc, ◌+◌, Bool, true, false, not, ◌&&◌, ◌||◌, List, [], ◌∷◌, Option, none, some, Bytes, bytes,
  bytes_key, Result, ok, err, fail_if, ok_or, ◌>>=◌, ◌>>◌, ◌==◌, ltb, leb, eqb, all, length, take,
  is_some, if◌then◌else◌,
}
use nvme_disk_mon.Config.{
  Config, ConfigError, read, invalid_embedded_checksum, checksum_mismatch, syntax, missing_field,
}
use nvme_disk_mon.Config.Check.{Checked, validate_config}
use nvme_disk_mon.Database.Identity.{encode}
use nvme_disk_mon.Database.Validate.{is_hex_digit}
use nvme_disk_mon.Writer.Names.{is_utf8}

unfoldable pub is_sha256_hex : Bytes → Bool
unfolding is_hex_digit
is_sha256_hex value = length value == 64 && all is_hex_digit value

unfoldable pub sha256_hex : (Bytes → List ℕ) → Bytes → Bytes
unfolding encode
sha256_hex sha256 contents = encode (sha256 contents)

-- A byte that starts a character: `chars().count()` counts those.
unfoldable pub is_char_start : ℕ → Bool
is_char_start byte = ltb byte 128 || leb 192 byte

-- The line and the column behind a prefix, both from 1 on.
unfoldable pub position : ℕ → ℕ → Bytes → ℕ × ℕ
unfolding is_char_start
position line column [] = (line, column)
position line column (byte ∷ prefix) =
    if byte == b'\n'
    then position (suc line) 1 prefix
    else if is_char_start byte
    then position line (suc column) prefix
    else position line column prefix

unfoldable pub syntax_error : Bytes → Option ℕ → ConfigError
unfolding position
syntax_error text none = syntax none none
syntax_error text (some offset) =
    let (line, column) = position 1 1 (take offset text) in syntax (some line) (some column)

-- `.map_err(|error| syntax_error(text, ..))?`
unfoldable pub or_syntax_error : {A : Type 0} → Bytes → Result A (Option ℕ) → Result A ConfigError
unfolding syntax_error
or_syntax_error text (ok a) = ok a
or_syntax_error text (err offset) = err (syntax_error text offset)

unfoldable pub required_fields : List (List String × String)
required_fields =
    ("general" ∷ "schema_version" ∷ [], "general.schema_version")
    ∷ ("device" ∷ "host" ∷ [], "device.host")
    ∷ ("device" ∷ "disk_list" ∷ [], "device.disk_list")
    ∷ ("writer_rank" ∷ "rank_length" ∷ [], "writer_rank.rank_length")
    ∷ ("mail" ∷ "smtp_host" ∷ [], "mail.smtp_host")
    ∷ ("mail" ∷ "smtp_port" ∷ [], "mail.smtp_port")
    ∷ ("mail" ∷ "smtp_auth_method" ∷ [], "mail.smtp_auth_method")
    ∷ ("mail" ∷ "smtp_tls_mode" ∷ [], "mail.smtp_tls_mode")
    ∷ ("mail" ∷ "send_as" ∷ [], "mail.send_as")
    ∷ ("mail" ∷ "send_to" ∷ [], "mail.send_to")
    ∷ []

unfoldable pub required_disk_fields : List (List String × String)
required_disk_fields =
    ("label" ∷ [], "device.disk_list[].label")
    ∷ ("serial" ∷ [], "device.disk_list[].serial")
    ∷ ("path" ∷ [], "device.disk_list[].path")
    ∷ ("detect_window_hr" ∷ [], "device.disk_list[].detect_window_hr")
    ∷ ("w_delta_threshold_gib" ∷ [], "device.disk_list[].w_delta_threshold_gib")
    ∷ []

-- `usize` holds the length of a file, so that `position` counts without overflow.
module _ {Value : Type 0} (value_get : Value → String → Option Value)
    (as_array : Value → Option (List Value)) where
  unfoldable pub lookup_value : Value → List String → Option Value
  lookup_value value [] = some value
  lookup_value value (component ∷ path) = elim (value_get value component) [
    | none ↦ none
    | some inner ↦ lookup_value inner path
  ]

  unfoldable pub require_fields : Value → List (List String × String) → Checked
  unfolding lookup_value
  require_fields value [] = ok tt
  require_fields value ((path, name) ∷ fields) =
      let rest = require_fields value fields in
      if is_some (lookup_value value path) then rest else err (missing_field name)

  unfoldable pub require_disks : List Value → Checked
  unfolding require_fields required_disk_fields
  require_disks [] = ok tt
  require_disks (disk ∷ disks) = do require_fields disk required_disk_fields; require_disks disks

  -- `lookup_value(..).and_then(toml::Value::as_array)`
  unfoldable pub disk_values : Value → Option (List Value)
  unfolding lookup_value
  disk_values value = elim (lookup_value value ("device" ∷ "disk_list" ∷ [])) [
    | none ↦ none
    | some disks ↦ as_array disks
  ]

  unfoldable pub require_disk_list : Option (List Value) → Checked
  unfolding require_disks
  require_disk_list none = ok tt
  require_disk_list (some disks) = require_disks disks

  unfoldable pub validate_required_fields : Value → Checked
  unfolding require_fields required_fields disk_values require_disk_list
  validate_required_fields value = do
    require_fields value required_fields
    require_disk_list (disk_values value)

  module _ (parse_value : Bytes → Result Value (Option ℕ))
      (parse_config : Bytes → Result Config (Option ℕ)) where
    unfoldable pub parse_and_validate : Bytes → Result Config ConfigError
    unfolding or_syntax_error validate_required_fields
    parse_and_validate contents = do
      fail_if (not (is_utf8 contents)) (syntax none none)
      value ← or_syntax_error contents (parse_value contents)
      validate_required_fields value
      config ← or_syntax_error contents (parse_config contents)
      validate_config config
      ok config

    module _ (read_file : Bytes → Option Bytes) (sha256 : Bytes → List ℕ) where
      unfoldable pub load_config_from : Bytes → Bytes → Result Config ConfigError
      unfolding is_sha256_hex sha256_hex parse_and_validate
      load_config_from path embedded_checksum = do
        fail_if (not (is_sha256_hex embedded_checksum)) invalid_embedded_checksum
        contents ← ok_or (read_file path) (read path)
        fail_if (not (eqb (sha256_hex sha256 contents) embedded_checksum)) checksum_mismatch
        parse_and_validate contents
