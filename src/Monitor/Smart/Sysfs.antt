-- ===== src/Monitor/Smart/Sysfs.antt =====
-- What src/monitor/smart.rs reads below /sys, and the tests of it.
use nvme_disk_mon.Common.{
  ℕ, zero, suc, ◌-◌, Bool, true, false, not, ◌&&◌, List, [], ◌∷◌, ◌++◌, Option, none, some, Bytes,
  bytes, bytes_key, eqb, Result, ok, err, ◌>>=◌, ◌>>◌, fail_if, ok_or, length, all, is_empty, ◌==◌,
  if◌then◌else◌, strip_prefix, strip_suffix, is_ascii_digit, parse_unsigned, ◌^◌,
}
use nvme_disk_mon.Common.Int.{u32_end}
use nvme_disk_mon.Monitor.Task.{SmartReadError, read_sysfs, not_nvme_namespace, serial_read}
use nvme_disk_mon.Writer.Names.{is_utf8}

-- What a call of the file system gives: `missing` is `ErrorKind::NotFound`.
pub data Found (A : Type 0) : Type 0 where
  found : A → Found A
  missing failed : Found A

pub record Metadata : Type 0 where
  pub is_block_device : Bool
  pub rdev : ℕ

pub record FileSystem : Type 0 where
  pub metadata : Bytes → Option Metadata
  pub canonicalize : Bytes → Found Bytes
  pub try_exists : Bytes → Option Bool
  pub read : Bytes → Found Bytes

-- `path.join(name)` for a name that is not absolute and a path that is the root or ends in no slash
unfoldable pub join : Bytes → Bytes → Bytes
join path name = if eqb path (bytes "/") then b'/' ∷ name else path ++ b'/' ∷ name

-- The component behind the last slash, of an absolute path
unfoldable pub last_component : Bytes → Bytes → Bytes
last_component last [] = last
last_component last (c ∷ path) =
    if c == b'/' then last_component [] path else last_component (last ++ c ∷ []) path

-- `path.file_name()` of a canonical path: `none` for the root
unfoldable pub file_name : Bytes → Option Bytes
unfolding last_component
file_name path = let name = last_component [] path in if is_empty name then none else some name

-- The white space of Unicode in UTF-8
abbrev pub white_space : List Bytes
white_space =
    (9 ∷ [])
    ∷ (10 ∷ [])
    ∷ (11 ∷ [])
    ∷ (12 ∷ [])
    ∷ (13 ∷ [])
    ∷ (32 ∷ [])
    ∷ (194 ∷ 133 ∷ [])
    ∷ (194 ∷ 160 ∷ [])
    ∷ (225 ∷ 154 ∷ 128 ∷ [])
    ∷ (226 ∷ 128 ∷ 128 ∷ [])
    ∷ (226 ∷ 128 ∷ 129 ∷ [])
    ∷ (226 ∷ 128 ∷ 130 ∷ [])
    ∷ (226 ∷ 128 ∷ 131 ∷ [])
    ∷ (226 ∷ 128 ∷ 132 ∷ [])
    ∷ (226 ∷ 128 ∷ 133 ∷ [])
    ∷ (226 ∷ 128 ∷ 134 ∷ [])
    ∷ (226 ∷ 128 ∷ 135 ∷ [])
    ∷ (226 ∷ 128 ∷ 136 ∷ [])
    ∷ (226 ∷ 128 ∷ 137 ∷ [])
    ∷ (226 ∷ 128 ∷ 138 ∷ [])
    ∷ (226 ∷ 128 ∷ 168 ∷ [])
    ∷ (226 ∷ 128 ∷ 169 ∷ [])
    ∷ (226 ∷ 128 ∷ 175 ∷ [])
    ∷ (226 ∷ 129 ∷ 159 ∷ [])
    ∷ (227 ∷ 128 ∷ 128 ∷ [])
    ∷ []

-- The text without the first of the pieces that `strip` finds at its end.
unfoldable pub strip_one : (Bytes → Bytes → Option Bytes) → List Bytes → Bytes → Option Bytes
strip_one strip [] s = none
strip_one strip (piece ∷ others) s = elim (strip piece s) [
  | none ↦ strip_one strip others s
  | some rest ↦ some rest
]

-- One character for each unit of fuel; a text has no more characters than bytes.
unfoldable pub strip_all : ℕ → (Bytes → Bytes → Option Bytes) → Bytes → Bytes
unfolding strip_one
strip_all zero strip s = s
strip_all (suc n) strip s = elim (strip_one strip white_space s) [
  | none ↦ s
  | some rest ↦ strip_all n strip rest
]

-- `s.trim()`
unfoldable pub trim : Bytes → Bytes
unfolding strip_all
trim s = strip_all (length s) strip_suffix (strip_all (length s) strip_prefix s)

unfoldable pub is_nsid : Option ℕ → Bool
is_nsid none = false
is_nsid (some nsid) = not (nsid == 0) && not (nsid == 2 ^ 32 - 1)

unfoldable pub is_namespace_id : Bytes → Bool
unfolding trim is_nsid
is_namespace_id value = is_nsid (parse_unsigned u32_end (trim value))

unfoldable pub is_suffix_of_digits : Option Bytes → Bool
is_suffix_of_digits none = false
is_suffix_of_digits (some suffix) = not (is_empty suffix) && all is_ascii_digit suffix

unfoldable pub is_controller_name : Bytes → Bool
unfolding is_suffix_of_digits
is_controller_name name = is_suffix_of_digits (strip_prefix (bytes "nvme") name)

-- `&bytes[..bytes.iter().rposition(|byte| *byte != b' ').map_or(0, |index| index + 1)]`
unfoldable pub without_padding : Bytes → Bytes
without_padding [] = []
without_padding (c ∷ s) =
    let rest = without_padding s in if is_empty rest && (c == 32) then [] else c ∷ rest

unfoldable pub sysfs_serial_matches : Bytes → Bytes → Result Bool SmartReadError
unfolding without_padding
sysfs_serial_matches serial_bytes expected_serial = do
  line ← ok_or (strip_suffix (bytes "\n") serial_bytes) serial_read
  fail_if (not (is_utf8 (without_padding line))) serial_read
  ok (eqb (without_padding line) expected_serial)

unfoldable pub check_partition : Option Bool → Result (Unit {0}) SmartReadError
check_partition (some true) = err not_nvme_namespace
check_partition (some false) = ok tt
check_partition none = err read_sysfs

-- `read_to_string` fails where the text is not UTF-8.
unfoldable pub check_nsid : Found Bytes → Result (Unit {0}) SmartReadError
unfolding is_namespace_id
check_nsid missing = err not_nvme_namespace
check_nsid failed = err read_sysfs
check_nsid (found value) = do
  fail_if (not (is_utf8 value)) read_sysfs
  fail_if (not (is_namespace_id value)) not_nvme_namespace

unfoldable pub require_nvme_namespace : FileSystem → Bytes → Result (Unit {0}) SmartReadError
unfolding check_partition check_nsid join
require_nvme_namespace fs namespace_path = do
  check_partition (fs.try_exists (join namespace_path (bytes "partition")))
  check_nsid (fs.read (join namespace_path (bytes "nsid")))
