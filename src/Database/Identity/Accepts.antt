-- ===== src/Database/Identity/Accepts.antt =====
-- The hashes that stand for devices, and the registrations that the database takes.
use nvme_disk_mon.Common.{
  ℕ, ◌*◌, ◌<◌, ◌≡◌, refl, ap, Bool, true, false, ◌||◌, List, [], ◌∷◌, ◌++◌, Bytes, bytes, bytes_key,
  eqb, Result, ok, err, map, All, all, any, length, ◌==◌, Distinct, Apart, arith, is_ascii_digit,
  Bool-cases, inl, inr,
}
use nvme_disk_mon.Database.Batch.{DeviceRegistration}
use nvme_disk_mon.Database.Errors.{DbWriteError}
use nvme_disk_mon.Database.Validate.{is_valid_hash_id, is_hex_digit}
use nvme_disk_mon.Database.Identity.{
  lowercase_hex, encode, DeviceTableNames, device_table_names, device_hash_id,
}

ok-ok :
    {a b : DeviceTableNames} → ◌≡◌ {A = Result DeviceTableNames DbWriteError} (ok a) (ok b) → a ≡ b
ok-ok e = ground arith

err-ok : {a : DeviceTableNames} {e : DbWriteError} → err e ≡ ok a → ⊥
err-ok h = ground arith

-- What is documented of SHA-256: a digest has 32 bytes.
pub record IsDigest (digest : List ℕ) : Type 0 where
  pub size : length digest ≡ 32
  pub small : All (λ byte. byte < 256) digest

length-encode : (digest : List ℕ) → length (encode digest) ≡ 2 * length digest
unfolding encode
length-encode [] = refl
length-encode (byte ∷ digest) = omega (arith, length-encode digest)

encode-hex :
    (digest : List ℕ) → All (λ byte. byte < 256) digest → all is_hex_digit (encode digest) ≡ true
unfolding encode lowercase_hex is_hex_digit is_ascii_digit
encode-hex [] h = refl
encode-hex (byte ∷ digest) h = ground (arith, h.0, encode-hex digest h.1)

-- Where each digest has 32 bytes, as is documented of SHA-256, the hash of a device is one that
-- the database takes.
pub device_hash_id-valid :
    (sha256 : Bytes → List ℕ) (serial path : Bytes)
    → ((input : Bytes) → IsDigest (sha256 input))
    → is_valid_hash_id (device_hash_id sha256 serial path) ≡ true
unfolding device_hash_id is_valid_hash_id
device_hash_id-valid sha256 serial path digests =
    let digest = sha256 (serial ++ 0 ∷ path) in
    let it = digests (serial ++ 0 ∷ path) in
    ground (arith, length-encode digest, it.size, encode-hex digest it.small)

-- No double quote stands in the text.
abbrev pub Unquoted : Bytes → Type 0
Unquoted s = any (λ c. c == b'"') s ≡ false

hex-Unquoted : (s : Bytes) → all is_hex_digit s ≡ true → Unquoted s
unfolding is_hex_digit is_ascii_digit
hex-Unquoted [] h = refl
hex-Unquoted (c ∷ s) h = ground (arith, h, hex-Unquoted s)

any-append : (p : ℕ → Bool) (s t : Bytes) → any p (s ++ t) ≡ any p s || any p t
any-append p [] t = refl
any-append p (c ∷ s) t = ground (arith, any-append p s t)

-- What stands between the quotes of both identifiers, which go into SQL as they are.
pub record AreQuoted (names : DeviceTableNames) : Type 0 where
  pub data_name : Bytes
  pub history_name : Bytes
  pub data_quoted : names.data_identifier ≡ b'"' ∷ data_name ++ b'"' ∷ []
  pub history_quoted : names.writer_history_identifier ≡ b'"' ∷ history_name ++ b'"' ∷ []
  pub data_unquoted : Unquoted data_name
  pub history_unquoted : Unquoted history_name

append_last : (s t : Bytes) (c : ℕ) → s ++ (t ++ c ∷ []) ≡ (s ++ t) ++ c ∷ []
append_last [] t c = refl
append_last (d ∷ s) t c = ap (◌∷◌ d) (append_last s t c)

Unquoted-name :
    (hash_id t : Bytes)
    → all is_hex_digit hash_id ≡ true
    → Unquoted t
    → Unquoted (bytes "d_" ++ hash_id ++ t)
Unquoted-name hash_id t h u =
    rw (any-append (λ c. c == b'"') hash_id t, hex-Unquoted hash_id h, u) refl

-- The identifiers of the tables of a device are quoted names without a quote in them.
pub device_table_names-AreQuoted :
    (hash_id : Bytes) (names : DeviceTableNames)
    → device_table_names hash_id ≡ ok names
    → AreQuoted names
unfolding device_table_names is_valid_hash_id
device_table_names-AreQuoted hash_id names e = elim (Bool-cases (is_valid_hash_id hash_id)) [
  | inl valid ↦
      let hex : all is_hex_digit hash_id ≡ true = ground (arith, valid) in
      let same = ok-ok (rw (device_table_names, valid) at e) in
      rw (← same) (record {
        data_name = bytes "d_" ++ hash_id ++ bytes "_data";
        history_name = bytes "d_" ++ hash_id ++ bytes "_writer_history";
        data_quoted = ap (λ s. b'"' ∷ b'd' ∷ b'_' ∷ s) (append_last hash_id (bytes "_data") b'"');
        history_quoted =
            ap (λ s. b'"' ∷ b'd' ∷ b'_' ∷ s) (append_last hash_id (bytes "_writer_history") b'"');
        data_unquoted = Unquoted-name hash_id (bytes "_data") hex refl;
        history_unquoted = Unquoted-name hash_id (bytes "_writer_history") hex refl;
      })
  | inr other ↦ absurd (err-ok (rw (device_table_names, other) at e))
]

-- A registration with its own hash.
pub record IsGoodRegistration (sha256 : Bytes → List ℕ) (device : DeviceRegistration) : Type 0 where
  pub safe : is_valid_hash_id device.hash_id ≡ true
  pub own : eqb (device_hash_id sha256 device.serial device.by_id_path) device.hash_id ≡ true

abbrev pub hashes_of : List DeviceRegistration → List Bytes
hashes_of = map (λ device. device.hash_id)

abbrev pub paths_of : List DeviceRegistration → List Bytes
paths_of = map (λ device. device.by_id_path)

abbrev GoodRegistrations :
    (Bytes → List ℕ) → List Bytes → List Bytes → List DeviceRegistration → Type 0
GoodRegistrations sha256 hashes paths devices =
    All (IsGoodRegistration sha256) devices
    × Distinct (hashes_of devices)
    × Distinct (paths_of devices)
    × Apart hashes (hashes_of devices)
    × Apart paths (paths_of devices)
