-- ===== src/Config/Tests.antt =====
-- Runs of src/config.rs, and the theorems at them.
use Prim.Native.String.{String}
use nvme_disk_mon.Common.{
  ℕ, ◌*◌, ◌^◌, ◌≡◌, ◌≢◌, ◌↔◌, refl, true, List, [], ◌∷◌, Option, none, some, Bytes, bytes,
  Bytes-discrete, bytes_key, ℕ_discrete, Result, ok, err, get, insert, arith, is_ascii_digit,
}
use nvme_disk_mon.Config.{
  DiskConfig, SmtpAuthMethod, plain, xoauth2, start_tls_required, OAuthConfig, Config,
  duplicate_device, incompatible_options, syntax,
}
use nvme_disk_mon.Config.Check.{
  check_general, check_names, check_limits, check_path, check_disks, check_mail, check_oauth,
  check_oauth_method, check_plain_method, check_auth, is_fixed_parameter, validate_config, refuse,
  fits_milliseconds, fits_minutes,
}
use nvme_disk_mon.Config.Load.{
  is_sha256_hex, sha256_hex, syntax_error, position, is_char_start, load_config_from,
  parse_and_validate, or_syntax_error, validate_required_fields, require_fields, required_fields,
  disk_values, require_disk_list, require_disks, required_disk_fields, lookup_value,
}
use nvme_disk_mon.Config.Load.Sound.{IsLoaded, load_config_from-IsLoaded}
use nvme_disk_mon.Config.Paths.{
  components-discrete, path_key, is_blank, path_components, is_by_id_path, first_blank, step_if,
  next_blank, is_between, is_blank_from, grow, slash_parts, add_component, named_components,
  first_components, is_by_id_components, root_dir, parent_dir, normal,
}
use nvme_disk_mon.Config.Check.Accepts.{IsValidDisk}
use nvme_disk_mon.Database.Identity.{device_hash_id, encode, lowercase_hex}
use nvme_disk_mon.Database.Identity.Accepts.{IsDigest}
use nvme_disk_mon.Database.Validate.{is_hex_digit}
use nvme_disk_mon.Monitor.Device.{VerifiedNvmeDevice, new}
use nvme_disk_mon.Monitor.Device.Configured.{configured, new-configured}
use nvme_disk_mon.Monitor.Threshold.{gib_floor_bytes}
use nvme_disk_mon.Writer.Names.{is_utf8, is_utf8_from}

-- The bit pattern of 0.5 as an f64.
abbrev one_half : ℕ
one_half = 1022 * 2 ^ 52

abbrev disk_0 : DiskConfig
disk_0 = record {
  label = bytes "Disk 0";
  serial = bytes "SERIAL0";
  path = bytes "/dev/disk/by-id/nvme-test";
  detect_window_hr = 3;
  w_delta_threshold_gib = one_half;
}

abbrev oauth_0 : OAuthConfig
oauth_0 = record {
  oauth_metadata_url = bytes "https://issuer.example.test/";
  oauth_scopes = bytes "mail.send" ∷ [];
  oauth_username = bytes "oauth-user@example.test";
  oauth_app_id = bytes "client-id";
  oauth_client_secret = bytes "client-secret";
  oauth_authorization_extra_params = (bytes "access_type", bytes "offline") ∷ [];
}

abbrev config_of : List DiskConfig → SmtpAuthMethod → Config
config_of disks method = record {
  general = record { schema_version = 1 };
  device = record { host = bytes "test-host"; disk_list = disks };
  writer_rank = record { rank_length = 20 };
  mail = record {
    smtp_host = bytes "smtp.example.test";
    smtp_port = 587;
    smtp_auth_method = method;
    smtp_tls_mode = start_tls_required;
    send_as = bytes "sender@example.test";
    send_to = bytes "receiver@example.test" ∷ [];
    oauth = some oauth_0;
    plain = none;
  };
}

by_id_path : is_by_id_path (bytes "//dev/./disk/by-id/nvme-test/") ≡ true
unfolding is_by_id_path is_by_id_components path_components slash_parts first_components
    named_components add_component grow Bytes-discrete ℕ_discrete
by_id_path = refl

parent_path :
    path_components (bytes "/dev/../x")
    ≡ root_dir ∷ normal (bytes "dev") ∷ parent_dir ∷ normal (bytes "x") ∷ []
unfolding path_components slash_parts first_components named_components add_component grow
    Bytes-discrete ℕ_discrete
parent_path = refl

-- A no-break space and a line separator.
blank_text : is_blank (0x20 ∷ 0xc2 ∷ 0xa0 ∷ 0xe2 ∷ 0x80 ∷ 0xa8 ∷ []) ≡ true
unfolding is_blank is_blank_from next_blank first_blank step_if is_between
blank_text = refl

valid_example : validate_config (config_of (disk_0 ∷ []) xoauth2) ≡ ok tt
unfolding validate_config check_general check_names check_limits check_path check_disks check_mail
    check_oauth check_oauth_method check_auth is_fixed_parameter refuse fits_milliseconds
    fits_minutes is_blank is_blank_from next_blank first_blank step_if is_between is_by_id_path
    is_by_id_components path_components slash_parts first_components named_components add_component
    grow Bytes-discrete ℕ_discrete components-discrete get insert
valid_example = refl

-- Two spellings of one path.
duplicate_example :
    check_disks [] 0 (disk_0 ∷ record disk_0 { path = bytes "/dev//disk/by-id/nvme-test" } ∷ [])
    ≡ err (duplicate_device 0 1)
unfolding check_names check_limits check_path check_disks refuse fits_milliseconds fits_minutes
    is_blank is_blank_from next_blank first_blank step_if is_between is_by_id_path
    is_by_id_components path_components slash_parts first_components named_components add_component
    grow Bytes-discrete ℕ_discrete components-discrete get insert
duplicate_example = refl

incompatible_example :
    check_auth plain (config_of [] plain).mail
    ≡ err (incompatible_options "mail.smtp_auth_method=PLAIN" "mail.oauth")
unfolding check_auth check_plain_method
incompatible_example = refl

syntax_error_example : syntax_error (bytes "a = 1\nb = ?\n") (some 10) ≡ syntax (some 2) (some 5)
unfolding syntax_error position is_char_start
syntax_error_example = refl

abbrev digest : Bytes → List ℕ
digest contents =
    1 ∷ 2 ∷ 3 ∷ 4 ∷ 5 ∷ 6 ∷ 7 ∷ 8 ∷ 1 ∷ 2 ∷ 3 ∷ 4 ∷ 5 ∷ 6 ∷ 7 ∷ 8 ∷ 1 ∷ 2 ∷ 3 ∷ 4 ∷ 5 ∷ 6 ∷ 7 ∷ 8
    ∷ 1 ∷ 2 ∷ 3 ∷ 4 ∷ 5 ∷ 6 ∷ 7 ∷ 8 ∷ []

abbrev checksum : Bytes
checksum = bytes "0102030405060708010203040506070801020304050607080102030405060708"

abbrev values : Unit {0} → String → Option (Unit {0})
values value key = some tt

abbrev arrays : Unit {0} → Option (List (Unit {0}))
arrays value = some (tt ∷ [])

abbrev parsed_value : Bytes → Result (Unit {0}) (Option ℕ)
parsed_value contents = ok tt

abbrev parsed_config : Bytes → Result Config (Option ℕ)
parsed_config contents = ok (config_of (disk_0 ∷ []) xoauth2)

abbrev file : Bytes → Option Bytes
file path = some (bytes "[general]")

load_config_from-IsLoaded_example :
    (load_config_from values arrays parsed_value parsed_config file digest (bytes "/c") checksum
      ≡ ok (config_of (disk_0 ∷ []) xoauth2))
    ↔ IsLoaded values arrays parsed_value parsed_config file digest
        (bytes "/c")
        checksum
        (config_of (disk_0 ∷ []) xoauth2)
load_config_from-IsLoaded_example =
    load_config_from-IsLoaded values arrays parsed_value parsed_config file digest (bytes "/c")
      checksum (config_of (disk_0 ∷ []) xoauth2)

-- The file with the checksum loads.
load_example :
    load_config_from values arrays parsed_value parsed_config file digest (bytes "/c") checksum
    ≡ ok (config_of (disk_0 ∷ []) xoauth2)
unfolding load_config_from parse_and_validate or_syntax_error validate_required_fields
    require_fields required_fields disk_values require_disk_list require_disks required_disk_fields
    lookup_value is_sha256_hex sha256_hex encode lowercase_hex is_hex_digit is_ascii_digit is_utf8
    is_utf8_from validate_config check_general check_names check_limits check_path check_disks
    check_mail check_oauth check_oauth_method check_auth is_fixed_parameter refuse fits_milliseconds
    fits_minutes is_blank is_blank_from next_blank first_blank step_if is_between is_by_id_path
    is_by_id_components path_components slash_parts first_components named_components add_component
    grow Bytes-discrete ℕ_discrete components-discrete get insert
load_example = refl

IsDigest-digest : (input : Bytes) → IsDigest (digest input)
IsDigest-digest input = record { size = refl; small = ground arith }

IsValidDisk-0 : IsValidDisk disk_0
unfolding is_blank is_blank_from next_blank first_blank step_if is_between is_by_id_path
    is_by_id_components path_components slash_parts first_components named_components add_component
    grow Bytes-discrete ℕ_discrete components-discrete
IsValidDisk-0 = record {
  labelled = refl;
  has_serial = λ e. ground arith;
  by_id = refl;
  window_positive = omega arith;
  window_minutes = omega arith;
  threshold_finite = refl;
  threshold_not_below_zero = refl;
}

abbrev verified_0 : VerifiedNvmeDevice
verified_0 = record {
  configured_path = disk_0.path;
  namespace_major = 259;
  namespace_minor = 0;
  controller_path = bytes "/dev/nvme0";
  hash_id = checksum;
}

hash_0 : verified_0.hash_id ≡ device_hash_id digest disk_0.serial disk_0.path
unfolding device_hash_id encode lowercase_hex
hash_0 = refl

new-configured_example :
    (new digest disk_0 verified_0 none ≡ ok (configured disk_0 verified_0 none))
    × (gib_floor_bytes one_half ≢ none)
new-configured_example =
    new-configured digest disk_0 verified_0 none IsDigest-digest IsValidDisk-0 refl hash_0
