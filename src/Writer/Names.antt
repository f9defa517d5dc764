-- ===== src/Writer/Names.antt =====
-- `canonical_workload_name` of src/writer/collector.rs and its helpers: the name under which the writes
-- of a cgroup are stored. A path is its bytes; `to_str` is that of the standard library, as what is in
-- Writer/Paths.
pub mod Decimal
pub mod Valid
use nvme_disk_mon.Common.{
  ℕ, zero, suc, ◌+◌, ◌-◌, ◌/◌, ◌%◌, Bool, true, false, not, ◌&&◌, ◌||◌, List, [], ◌∷◌, ◌++◌, Option,
  none, some, Bytes, bytes, bytes_key, eqb, ltb, leb, ◌==◌, if◌then◌else◌, is_empty, all, is_some,
  strip_prefix, strip_suffix, is_ascii_alphanumeric, is_ascii_graphic, parse_unsigned,
}
use nvme_disk_mon.Common.Int.{u32_end}
use nvme_disk_mon.Writer.Paths.{below_root, components}

-- `slice.split_last()`
unfoldable pub split_last : List Bytes → Option (List Bytes × Bytes)
split_last [] = none
split_last (part ∷ parts) = elim (split_last parts) [
  | none ↦ some ([], part)
  | some (parents, last) ↦ some (part ∷ parents, last)
]

-- Whether `to_str` finds UTF-8: `n` bytes are due, the next one from `low` to `high`.
unfoldable pub is_utf8_from : ℕ → ℕ → ℕ → Bytes → Bool
is_utf8_from n low high [] = n == 0
is_utf8_from n low high (b ∷ s) =
    let next : ℕ → ℕ → ℕ → Bool = λ n low high. is_utf8_from n low high s in
    if not (n == 0)
    then ((leb low b && leb b high) && next (n - 1) 128 191)
    else if ltb b 128
    then next 0 128 191
    else if leb 194 b && leb b 223
    then next 1 128 191
    else if leb 224 b && leb b 239
    then next 2 (if b == 224 then 160 else 128) (if b == 237 then 159 else 191)
    else if leb 240 b && leb b 244
    then next 3 (if b == 240 then 144 else 128) (if b == 244 then 143 else 191)
    else false

unfoldable pub is_utf8 : Bytes → Bool
is_utf8 s = is_utf8_from 0 128 191 s

unfoldable pub is_slice_name : Bytes → Bool
is_slice_name name = elim (strip_suffix (bytes ".slice") name) [
  | none ↦ false
  | some stem ↦ not (is_empty stem)
]

unfoldable pub has_suffix : Bytes → Bytes → Bool
has_suffix suffix name = elim (strip_suffix suffix name) [
  | none ↦ false
  | some stem ↦ not (is_empty stem)
]

unfoldable pub is_safe_byte : ℕ → Bool
is_safe_byte c = is_ascii_graphic c && not (c == b'/')

unfoldable pub is_safe_unit_name : Bytes → Bool
unfolding has_suffix is_safe_byte
is_safe_unit_name name =
    (has_suffix (bytes ".service") name || has_suffix (bytes ".scope") name)
    && all is_safe_byte name

-- `format!("{n}")` of a u32, with at most the given number of digits: ten are enough.
unfoldable pub decimal : ℕ → ℕ → Bytes
decimal zero n = []
decimal (suc k) n =
    let front = decimal k (n / 10) in
    if ltb n 10 then (b'0' + n) ∷ [] else front ++ (b'0' + n % 10) ∷ []

unfoldable pub print_u32 : ℕ → Bytes
print_u32 n = decimal 10 n

-- `user_slice.strip_prefix("user-")?.strip_suffix(".slice")?.parse::<u32>().ok()?`
unfoldable pub uid_of : Bytes → Option ℕ
uid_of user_slice = elim (strip_prefix (bytes "user-") user_slice) [
  | none ↦ none
  | some rest ↦ elim (strip_suffix (bytes ".slice") rest) [
    | none ↦ none
    | some uid ↦ parse_unsigned u32_end uid
  ]
]

unfoldable pub manager_name : ℕ → Bytes
unfolding print_u32
manager_name uid = bytes "user@" ++ print_u32 uid ++ bytes ".service"

-- The test of `unique_user_unit` behind the pattern.
unfoldable pub user_unit : Bytes → Option (List Bytes × Bytes) → Option ℕ → Option (ℕ × Bytes)
unfolding is_slice_name is_safe_unit_name manager_name
user_unit manager none uid = none
user_unit manager (some (middle, unit)) none = none
user_unit manager (some (middle, unit)) (some uid) =
    if not (eqb manager (manager_name uid))
      || (not (all is_slice_name middle) || not (is_safe_unit_name unit))
    then none
    else some (uid, unit)

unfoldable pub match_user_unit : List Bytes → Option (ℕ × Bytes)
unfolding user_unit uid_of split_last
match_user_unit (first ∷ user_slice ∷ manager ∷ rest) =
    if eqb first (bytes "user.slice")
    then user_unit manager (split_last rest) (uid_of user_slice)
    else none
match_user_unit _ = none

unfoldable pub unique_user_unit : List Bytes → Option (ℕ × Bytes)
unfolding match_user_unit is_utf8
unique_user_unit parts = if all is_utf8 parts then match_user_unit parts else none

unfoldable pub is_slice_component : Bytes → Bool
unfolding is_utf8 is_slice_name
is_slice_component part = is_utf8 part && is_slice_name part

unfoldable pub system_unit : Option (List Bytes × Bytes) → Option Bytes
unfolding is_slice_component is_safe_unit_name is_utf8
system_unit none = none
system_unit (some (parents, unit)) =
    if not (is_utf8 unit)
    then none
    else if is_empty parents
        || (not (all is_slice_component parents) || not (is_safe_unit_name unit))
    then none
    else some unit

unfoldable pub unique_system_unit : List Bytes → Option Bytes
unfolding system_unit split_last
unique_system_unit parts = system_unit (split_last parts)

unfoldable pub is_plain : ℕ → Bool
is_plain c =
    is_ascii_alphanumeric c
    || (c == b'/' || (c == b'.' || (c == b'_' || (c == b'-' || (c == b':' || c == b'@')))))

unfoldable pub hex_digit : ℕ → ℕ
hex_digit n = if ltb n 10 then b'0' + n else b'a' + (n - 10)

unfoldable pub escape_byte : ℕ → Bytes
unfolding is_plain hex_digit
escape_byte c =
    if is_plain c then c ∷ [] else 92 ∷ b'x' ∷ hex_digit (c / 16 % 16) ∷ hex_digit (c % 16) ∷ []

unfoldable pub escape_cgroup_path : Bytes → Bytes
unfolding escape_byte
escape_cgroup_path [] = []
escape_cgroup_path (c ∷ path) = escape_byte c ++ escape_cgroup_path path

unfoldable pub system_name : Bytes → Option Bytes → Bytes
unfolding escape_cgroup_path
system_name relative (some unit) = bytes "systemd:system:" ++ unit
system_name relative none = bytes "cgroup:" ++ escape_cgroup_path (b'/' ∷ relative)

unfoldable pub user_name : Bytes → Option (ℕ × Bytes) → Option Bytes → Bytes
unfolding system_name print_u32
user_name relative (some (uid, unit)) system = bytes "systemd:user:" ++ print_u32 uid ++ b':' ∷ unit
user_name relative none system = system_name relative system

unfoldable pub name_below : Bytes → Bytes
unfolding user_name unique_user_unit unique_system_unit components
name_below relative =
    let parts = components relative in
    user_name relative (unique_user_unit parts) (unique_system_unit parts)

unfoldable pub canonical_workload_name : Bytes → Bytes → Bytes
unfolding name_below below_root
canonical_workload_name root path = name_below (below_root root path)
