-- ===== src/Config/Load/Sound.antt =====
-- What `load_config_from` of src/config.rs returns, and when.
use Prim.Native.String.{String}
use nvme_disk_mon.Common.{
  ℕ, ◌≡◌, ◌↔◌, true, List, Option, some, Bytes, bytes_key, Result, ok, arith, inl, inr,
  Option-cases, Result-cases,
}
use nvme_disk_mon.Config.{Config, ConfigError}
use nvme_disk_mon.Config.Check.Accepts.{IsValidConfig, validate_config-IsValidConfig}
use nvme_disk_mon.Config.Load.{
  is_sha256_hex, or_syntax_error, validate_required_fields, sha256_hex, parse_and_validate,
  load_config_from,
}
use nvme_disk_mon.Writer.Names.{is_utf8}

module _ {Value : Type 0} (value_get : Value → String → Option Value)
    (as_array : Value → Option (List Value)) (parse_value : Bytes → Result Value (Option ℕ))
    (parse_config : Bytes → Result Config (Option ℕ)) where
  -- `config` is what the text says, and valid.
  pub record IsParsed (contents : Bytes) (config : Config) : Type 0 where
    pub value : Value
    pub text : is_utf8 contents ≡ true
    pub value_parsed : parse_value contents ≡ ok value
    pub fields_present : validate_required_fields value_get as_array value ≡ ok tt
    pub config_parsed : parse_config contents ≡ ok config
    pub config_valid : IsValidConfig config

  abbrev parse : Bytes → Result Config ConfigError
  parse = parse_and_validate value_get as_array parse_value parse_config

  parse-IsParsed :
      (contents : Bytes) (config : Config) → parse contents ≡ ok config → IsParsed contents config
  unfolding parse_and_validate or_syntax_error
  parse-IsParsed contents config h = elim (Result-cases (parse_value contents)) [
    | inr (offset, e) ↦ ground arith
    | inl (value, e) ↦ elim (Result-cases (parse_config contents)) [
      | inr (offset, f) ↦ ground arith
      | inl (c, f) ↦ record {
        value = value;
        text = ground arith;
        value_parsed = e;
        fields_present = ground arith;
        config_parsed = ground arith;
        config_valid = (validate_config-IsValidConfig config).0 (ground arith);
      }
    ]
  ]

  IsParsed-parse :
      (contents : Bytes) (config : Config) → IsParsed contents config → parse contents ≡ ok config
  unfolding parse_and_validate or_syntax_error
  IsParsed-parse contents config p = ground (
    arith,
    p.text,
    p.value_parsed,
    p.fields_present,
    p.config_parsed,
    (validate_config-IsValidConfig config).1 p.config_valid,
  )

  module _ (read_file : Bytes → Option Bytes) (sha256 : Bytes → List ℕ) where
    -- The file at `path` is the one with the embedded checksum.
    pub record IsLoaded (path embedded_checksum : Bytes) (config : Config) : Type 0 where
      pub contents : Bytes
      pub checksum_well_formed : is_sha256_hex embedded_checksum ≡ true
      pub file_read : read_file path ≡ some contents
      pub checksum_matches : sha256_hex sha256 contents ≡ embedded_checksum
      pub parsed : IsParsed contents config

    abbrev load : Bytes → Bytes → Result Config ConfigError
    load = load_config_from value_get as_array parse_value parse_config read_file sha256

    -- load_config_from returns a configuration exactly where the embedded checksum is 64
    -- lower-case hexadecimal digits and the digest of the file that was read, the file is UTF-8
    -- and parses with every required field, the configuration is what it says, and that
    -- configuration is valid: the schema 1, at least one disk, names and recipients that are not
    -- blank, paths directly below by-id and distinct, windows whose minutes fit an u32, finite
    -- thresholds that are not negative, and the section of the authentication method without the
    -- other one.
    pub load_config_from-IsLoaded :
        (path embedded_checksum : Bytes) (config : Config)
        → (load path embedded_checksum ≡ ok config) ↔ IsLoaded path embedded_checksum config
    unfolding load_config_from
    load_config_from-IsLoaded path embedded_checksum config = (
      λ h. elim (Option-cases (read_file path)) [
        | inl e ↦ ground arith
        | inr (contents, e) ↦ record {
          contents = contents;
          checksum_well_formed = ground arith;
          file_read = e;
          checksum_matches = ground arith;
          parsed = parse-IsParsed contents config (ground arith);
        }
      ],
      λ p. ground (
        arith,
        p.checksum_well_formed,
        p.file_read,
        p.checksum_matches,
        IsParsed-parse p.contents config p.parsed,
      ),
    )
