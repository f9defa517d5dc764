-- ===== src/Writer/IoStat.antt =====
-- `parse_io_stat` and `parse_device_number` of src/writer/collector.rs: the counters of one cgroup. A
-- device whose line is damaged, or stands twice, is a failed one and has no counter.
pub mod Apart
use nvme_disk_mon.Common.{
  ℕ, Bool, true, false, not, ◌||◌, List, [], ◌∷◌, Option, none, some, Bytes, bytes, bytes_key, eqb,
  ◌==◌, leb, ◌&&◌, if◌then◌else◌, all, is_some, split_once, parse_unsigned, Key, get, insert,
  contains, insert_set, ite,
}
use nvme_disk_mon.Common.Int.{u32_end, u128_end}
use nvme_disk_mon.Config.Paths.{is_blank}
use nvme_disk_mon.Writer.Types.{DeviceNumber, device_number_key}

pub record ParsedIoStat : Type 0 where
  pub counters : List (DeviceNumber × ℕ)
  pub failed_devices : List DeviceNumber
  pub unscoped_failure : Bool

-- The white space of `split_ascii_whitespace`
unfoldable pub is_ascii_whitespace : ℕ → Bool
is_ascii_whitespace c = c == 32 || (c == 9 || (c == 10 || (c == 12 || c == 13)))

-- The pieces of a text between the bytes that pass the test, the empty ones too.
unfoldable pub pieces : (ℕ → Bool) → Bytes → List Bytes
pieces ends [] = [] ∷ []
pieces ends (c ∷ s) =
    let rest = pieces ends s in
    if ends c
    then [] ∷ rest
    else elim rest [ [] ↦ (c ∷ []) ∷ [] | piece ∷ others ↦ (c ∷ piece) ∷ others ]

unfoldable pub drop_blank : (ℕ → Bool) → List Bytes → List Bytes
drop_blank blank [] = []
drop_blank blank (piece ∷ others) =
    let rest = drop_blank blank others in if all blank piece then rest else piece ∷ rest

-- `lines.filter(|line| !line.trim().is_empty())`
unfoldable pub with_text : List Bytes → List Bytes
unfolding is_blank
with_text [] = []
with_text (line ∷ lines) = let rest = with_text lines in if is_blank line then rest else line ∷ rest

-- `input.lines()`, without the lines that are blank; a carriage return at the end of a line stays, since
-- the fields leave it out.
unfoldable pub lines_of : Bytes → List Bytes
unfolding pieces with_text
lines_of input = with_text (pieces (λ c. c == 10) input)

-- `line.split_ascii_whitespace()`
unfoldable pub fields_of : Bytes → List Bytes
unfolding is_ascii_whitespace
fields_of line = drop_blank is_ascii_whitespace (pieces is_ascii_whitespace line)

unfoldable pub device_number : Option ℕ → Option ℕ → Option DeviceNumber
device_number (some major) (some minor) = some (record { major = major; minor = minor })
device_number _ _ = none

unfoldable pub parse_device_number : Bytes → Option DeviceNumber
unfolding device_number
parse_device_number value = elim (split_once b':' value) [
  | none ↦ none
  | some (major, minor) ↦
      device_number (parse_unsigned u32_end major) (parse_unsigned u32_end minor)
]

pub record FieldLoop : Type 0 where
  pub wbytes : Option ℕ
  pub failed : Bool

-- A field `wbytes=...`.
unfoldable pub read_wbytes : FieldLoop → Bytes → FieldLoop
read_wbytes l value =
    if is_some l.wbytes then record l { failed = true } else elim (parse_unsigned u128_end value) [
      | none ↦ record l { failed = true }
      | some amount ↦ record l { wbytes = some amount }
    ]

unfoldable pub read_field : FieldLoop → Bytes → FieldLoop
unfolding read_wbytes
read_field l field = elim (split_once b'=' field) [
  | none ↦ record l { failed = true }
  | some (name, value) ↦ if eqb name (bytes "wbytes") then read_wbytes l value else l
]

unfoldable pub read_fields : FieldLoop → List Bytes → FieldLoop
unfolding read_field
read_fields l [] = l
read_fields l (field ∷ fields) = read_fields (read_field l field) fields

-- `counters.remove(&device)`, where a device stands once at most
unfoldable pub remove_counter : List (DeviceNumber × ℕ) → DeviceNumber → List (DeviceNumber × ℕ)
remove_counter [] device = []
remove_counter ((number, amount) ∷ counters) device =
    ite (device_number_key.same device number) (remove_counter counters device)
      ((number, amount) ∷ remove_counter counters device)

unfoldable pub fail_device : ParsedIoStat → DeviceNumber → ParsedIoStat
unfolding remove_counter
fail_device p device = record p {
  failed_devices = insert_set p.failed_devices device;
  counters = remove_counter p.counters device;
}

-- The end of the loop body; the counter is inserted only if the tests before it are false.
unfoldable pub finish_line : ParsedIoStat → DeviceNumber → FieldLoop → ParsedIoStat
unfolding fail_device
finish_line p device l = elim l.wbytes [
  | none ↦ fail_device p device
  | some amount ↦
      if l.failed || (contains p.failed_devices device || is_some (get p.counters device))
      then fail_device p device
      else record p { counters = insert p.counters device amount }
]

unfoldable pub read_device_line :
    List DeviceNumber → ParsedIoStat → List Bytes → Option DeviceNumber → ParsedIoStat
unfolding finish_line read_fields
read_device_line monitored p fields none = record p { unscoped_failure = true }
read_device_line monitored p fields (some device) =
    if not (contains monitored device)
    then p
    else finish_line p device (read_fields (record { wbytes = none; failed = false }) fields)

unfoldable pub read_line : List DeviceNumber → ParsedIoStat → List Bytes → ParsedIoStat
unfolding read_device_line parse_device_number
read_line monitored p [] = record p { unscoped_failure = true }
read_line monitored p (first ∷ fields) =
    read_device_line monitored p fields (parse_device_number first)

unfoldable pub read_lines : List DeviceNumber → ParsedIoStat → List Bytes → ParsedIoStat
unfolding read_line fields_of
read_lines monitored p [] = p
read_lines monitored p (line ∷ lines) =
    read_lines monitored (read_line monitored p (fields_of line)) lines

unfoldable pub parse_io_stat : Bytes → List DeviceNumber → ParsedIoStat
unfolding read_lines lines_of
parse_io_stat input monitored =
    read_lines monitored (record { counters = []; failed_devices = []; unscoped_failure = false })
      (lines_of input)
