-- ===== src/Config/Check/Accepts.antt =====
-- Which configurations `validate_config` of src/config.rs accepts.
use nvme_disk_mon.Common.{
  ℕ, suc, ◌*◌, ◌^◌, ◌<◌, ◌≡◌, ◌≢◌, ◌↔◌, Bool, true, false, List, [], ◌∷◌, Option, none, some,
  bytes_key, ok, All, Distinct, Apart, any, insert, keys, contains, contains-keys,
  Apart-keys-insert, Option-cases, inl, inr, Apart-nil, arith,
}
use nvme_disk_mon.Config.{
  DiskConfig, SmtpAuthMethod, plain, xoauth2, oauth_bearer, OAuthConfig, PlainConfig, MailConfig,
  Config,
}
use nvme_disk_mon.Config.Check.{
  check_general, check_names, check_limits, check_disks, check_mail, check_plain, check_oauth,
  check_auth, check_plain_method, check_oauth_method, is_fixed_parameter, validate_config, refuse,
  fits_milliseconds, fits_minutes,
}
use nvme_disk_mon.Config.Paths.{Component, path_key, is_blank, path_components, is_by_id_path}
use nvme_disk_mon.Monitor.Threshold.{is_finite, is_below_zero}

pub record IsValidDisk (disk : DiskConfig) : Type 0 where
  pub labelled : is_blank disk.label ≡ false
  pub has_serial : disk.serial ≢ []
  pub by_id : is_by_id_path disk.path ≡ true
  pub window_positive : 0 < disk.detect_window_hr
  pub window_minutes : disk.detect_window_hr * 60 < 2 ^ 32
  pub threshold_finite : is_finite disk.w_delta_threshold_gib ≡ true
  pub threshold_not_below_zero : is_below_zero disk.w_delta_threshold_gib ≡ false

pub record IsValidPlain (c : PlainConfig) : Type 0 where
  pub has_username : c.plain_username ≢ []
  pub has_password : c.plain_app_password ≢ []

pub record IsValidOauth (c : OAuthConfig) : Type 0 where
  pub has_url : is_blank c.oauth_metadata_url ≡ false
  pub has_scopes : c.oauth_scopes ≢ []
  pub scopes_named : All (λ s. is_blank s ≡ false) c.oauth_scopes
  pub has_user : is_blank c.oauth_username ≡ false
  pub has_app_id : c.oauth_app_id ≢ []
  pub has_secret : c.oauth_client_secret ≢ []
  pub parameters_free :
      All (λ key. is_fixed_parameter key ≡ false) (keys c.oauth_authorization_extra_params)

-- The section of the method is given and no other.
abbrev pub IsValidAuth : SmtpAuthMethod → Option PlainConfig → Option OAuthConfig → Type 0
IsValidAuth plain (some c) none = IsValidPlain c
IsValidAuth xoauth2 none (some c) = IsValidOauth c
IsValidAuth oauth_bearer none (some c) = IsValidOauth c
IsValidAuth _ _ _ = ⊥

abbrev disk_paths : List DiskConfig → List (List Component)
disk_paths [] = []
disk_paths (disk ∷ disks) = path_components disk.path ∷ disk_paths disks

pub record IsValidConfig (config : Config) : Type 0 where
  pub schema : config.general.schema_version ≡ 1
  pub has_disks : config.device.disk_list ≢ []
  pub has_host : is_blank config.device.host ≡ false
  pub disks : All IsValidDisk config.device.disk_list
  pub paths_distinct : Distinct (disk_paths config.device.disk_list)
  pub rank_positive : 0 < config.writer_rank.rank_length
  pub rank_small : config.writer_rank.rank_length < 2 ^ 63
  pub has_smtp_host : is_blank config.mail.smtp_host ≡ false
  pub has_smtp_port : 0 < config.mail.smtp_port
  pub has_sender : is_blank config.mail.send_as ≡ false
  pub has_recipients : config.mail.send_to ≢ []
  pub recipients_named : All (λ s. is_blank s ≡ false) config.mail.send_to
  pub auth : IsValidAuth config.mail.smtp_auth_method config.mail.plain config.mail.oauth

names-ok :
    (d : DiskConfig)
    → (check_names d ≡ ok tt)
      ↔ ((is_blank d.label ≡ false) × (d.serial ≢ []) × (is_by_id_path d.path ≡ true))
unfolding check_names refuse
names-ok d = ground arith

limits-ok :
    (d : DiskConfig)
    → (check_limits d ≡ ok tt) ↔ (
        (0 < d.detect_window_hr)
        × (d.detect_window_hr * 60 < 2 ^ 32)
        × (is_finite d.w_delta_threshold_gib ≡ true)
        × (is_below_zero d.w_delta_threshold_gib ≡ false))
unfolding check_limits refuse fits_milliseconds fits_minutes
limits-ok d = ground arith

plain-ok : (c : PlainConfig) → (check_plain c ≡ ok tt) ↔ IsValidPlain c
unfolding check_plain refuse
plain-ok c = ground arith

any-All : {A : Type 0} (p : A → Bool) (xs : List A) → (any p xs ≡ false) ↔ All (λ a. p a ≡ false) xs
any-All p [] = ground arith
any-All p (x ∷ xs) = ground (arith, any-All p xs)

oauth-ok : (c : OAuthConfig) → (check_oauth c ≡ ok tt) ↔ IsValidOauth c
unfolding check_oauth refuse
oauth-ok c = ground (
  arith,
  any-All is_blank c.oauth_scopes,
  any-All is_fixed_parameter (keys c.oauth_authorization_extra_params),
)

auth-ok :
    (method : SmtpAuthMethod) (mail : MailConfig)
    → (check_auth method mail ≡ ok tt) ↔ IsValidAuth method mail.plain mail.oauth
unfolding check_auth check_plain_method check_oauth_method
auth-ok plain mail = elim (Option-cases mail.plain) [
  | inl e ↦ elim (Option-cases mail.oauth) [
    | inl f ↦ ground arith
    | inr (c, f) ↦ ground (arith, oauth-ok c)
  ]
  | inr (c, e) ↦ ground (arith, plain-ok c)
]
auth-ok xoauth2 mail = elim (Option-cases mail.plain) [
  | inl e ↦ elim (Option-cases mail.oauth) [
    | inl f ↦ ground arith
    | inr (c, f) ↦ ground (arith, oauth-ok c)
  ]
  | inr (c, e) ↦ ground (arith, plain-ok c)
]
auth-ok oauth_bearer mail = elim (Option-cases mail.plain) [
  | inl e ↦ elim (Option-cases mail.oauth) [
    | inl f ↦ ground arith
    | inr (c, f) ↦ ground (arith, oauth-ok c)
  ]
  | inr (c, e) ↦ ground (arith, plain-ok c)
]

general-ok :
    (c : Config)
    → (check_general c ≡ ok tt) ↔ (
        (c.general.schema_version ≡ 1)
        × (c.device.disk_list ≢ [])
        × (is_blank c.device.host ≡ false))
unfolding check_general refuse
general-ok c = ground arith

mail-ok :
    (c : Config)
    → (check_mail c ≡ ok tt) ↔ (
        (0 < c.writer_rank.rank_length)
        × (c.writer_rank.rank_length < 2 ^ 63)
        × (is_blank c.mail.smtp_host ≡ false)
        × (0 < c.mail.smtp_port)
        × (is_blank c.mail.send_as ≡ false)
        × (c.mail.send_to ≢ [])
        × All (λ s. is_blank s ≡ false) c.mail.send_to)
unfolding check_mail refuse
mail-ok c = ground (arith, any-All is_blank c.mail.send_to)

-- The paths that the loop remembers are the keys of its map.
disks-ok :
    (m : List (List Component × ℕ)) (i : ℕ) (disks : List DiskConfig)
    → (check_disks m i disks ≡ ok tt)
      ↔ (All IsValidDisk disks × Distinct (disk_paths disks) × Apart (keys m) (disk_paths disks))
unfolding check_disks contains
disks-ok m i [] = ground arith
disks-ok m i (d ∷ ds) =
    let path = path_components d.path in
    let ih = disks-ok (insert m path i) (suc i) ds in
    let apart = Apart-keys-insert m path i (disk_paths ds) in
    let known = contains-keys m path in
    (
      λ h. ground (arith, ih.0, names-ok d, limits-ok d, apart.0, known),
      λ h. ground (arith, ih.1, names-ok d, limits-ok d, apart.1, known),
    )

-- `validate_config` accepts a configuration exactly where ...
pub validate_config-IsValidConfig : (c : Config) → (validate_config c ≡ ok tt) ↔ IsValidConfig c
unfolding validate_config
validate_config-IsValidConfig c =
    let disks = c.device.disk_list in
    let none_seen = Apart-nil (disk_paths disks) in
    let loop = disks-ok [] 0 disks in
    let auth = auth-ok c.mail.smtp_auth_method c.mail in
    (
      λ h. ground (arith, general-ok c, mail-ok c, loop.0, auth.0),
      λ h. ground (arith, general-ok c, mail-ok c, loop.1, auth.1, none_seen),
    )
