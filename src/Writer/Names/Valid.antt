-- ===== src/Writer/Names/Valid.antt =====
-- Each name that the collector makes up is one that the database writer takes.
use nvme_disk_mon.Common.{
  ℕ, ◌<◌, ◌≡◌, refl, true, false, List, [], ◌∷◌, ◌++◌, Option, none, some, Bytes, bytes, eqb,
  bytes_key, is_empty, all, strip_prefix, strip_suffix, is_ascii_alphanumeric, is_ascii_graphic,
  is_ascii_control, Bool-cases, Option-cases, inl, inr, arith, starts_with,
}
use nvme_disk_mon.Common.Int.{u32_end}
use nvme_disk_mon.Database.Validate.{
  is_valid_workload_name, is_valid_user_unit, is_valid_cgroup_name,
}
use nvme_disk_mon.Writer.Paths.{below_root, components}
use nvme_disk_mon.Writer.Names.{
  is_safe_byte, is_safe_unit_name, has_suffix, decimal, print_u32, uid_of, user_unit,
  match_user_unit, unique_user_unit, system_unit, unique_system_unit, is_plain, hex_digit,
  escape_byte, escape_cgroup_path, system_name, user_name, is_utf8, name_below,
  canonical_workload_name, split_last,
}
use nvme_disk_mon.Writer.Names.Decimal.{
  Printable, any-append, decimal-Printable, decimal-digits, split_once-digits, parse_unsigned-bound,
  parse_unsigned-print_u32,
}

strip_prefix-append : (p s : Bytes) → strip_prefix p (p ++ s) ≡ some s
unfolding strip_prefix
strip_prefix-append [] s = refl
strip_prefix-append (c ∷ p) s = ground (arith, strip_prefix-append p s)

safe-Printable : (s : Bytes) → all is_safe_byte s ≡ true → Printable s
unfolding is_safe_byte is_ascii_graphic is_ascii_control
safe-Printable [] h = refl
safe-Printable (c ∷ s) h = ground (arith, safe-Printable s)

escape_byte-Printable : (c : ℕ) → Printable (escape_byte c)
unfolding escape_byte is_plain hex_digit is_ascii_control is_ascii_alphanumeric
escape_byte-Printable c = ground arith

escape_cgroup_path-Printable : (s : Bytes) → Printable (escape_cgroup_path s)
unfolding escape_cgroup_path
escape_cgroup_path-Printable [] = refl
escape_cgroup_path-Printable (c ∷ s) =
    rw
      (
        any-append is_ascii_control (escape_byte c) (escape_cgroup_path s),
        escape_byte-Printable c,
        escape_cgroup_path-Printable s,
      )
      refl

-- A safe unit name is not empty.
is_safe_unit_name-not_empty : (unit : Bytes) → is_safe_unit_name unit ≡ true → is_empty unit ≡ false
unfolding is_safe_unit_name has_suffix strip_suffix
is_safe_unit_name-not_empty [] h = ground (arith, h)
is_safe_unit_name-not_empty (c ∷ unit) h = refl

is_safe_unit_name-Printable : (unit : Bytes) → is_safe_unit_name unit ≡ true → Printable unit
unfolding is_safe_unit_name
is_safe_unit_name-Printable unit h = ground (arith, h, safe-Printable unit)

none-some : {A : Type 0} {a : A} → none ≡ some a → ⊥
none-some e = ground arith

uid_of-bound : (s : Bytes) (uid : ℕ) → uid_of s ≡ some uid → uid < u32_end
unfolding uid_of
uid_of-bound s uid e = elim (Option-cases (strip_prefix (bytes "user-") s)) [
  | inl missing ↦ absurd (none-some (rw (uid_of, missing) at e))
  | inr (rest, found) ↦ elim (Option-cases (strip_suffix (bytes ".slice") rest)) [
    | inl missing ↦ absurd (none-some (rw (uid_of, found, missing) at e))
    | inr (digits, stem) ↦
        parse_unsigned-bound u32_end uid digits (omega arith) (rw (uid_of, found, stem) at e)
  ]
]

-- What is known of a unit.
abbrev IsUnit : Bytes → Type 0
IsUnit unit = is_safe_unit_name unit ≡ true

system-valid :
    (unit : Bytes) → IsUnit unit → is_valid_workload_name (bytes "systemd:system:" ++ unit) ≡ true
unfolding is_valid_workload_name is_ascii_control strip_prefix
system-valid unit h =
    rw (is_safe_unit_name-Printable unit h, is_safe_unit_name-not_empty unit h) refl

cgroup-valid :
    (relative : Bytes)
    → is_valid_workload_name (bytes "cgroup:" ++ escape_cgroup_path (b'/' ∷ relative)) ≡ true
unfolding is_valid_workload_name is_valid_cgroup_name is_ascii_control is_ascii_alphanumeric
    strip_prefix starts_with escape_cgroup_path escape_byte is_plain
cgroup-valid relative = rw (escape_cgroup_path-Printable relative) refl

user-valid :
    (uid : ℕ) (unit : Bytes)
    → uid < u32_end
    → IsUnit unit
    → is_valid_workload_name (bytes "systemd:user:" ++ print_u32 uid ++ b':' ∷ unit) ≡ true
unfolding is_valid_workload_name is_valid_user_unit is_ascii_control strip_prefix print_u32
user-valid uid unit fits h =
    rw
      (
        any-append is_ascii_control (decimal 10 uid) (b':' ∷ unit),
        decimal-Printable 10 uid,
        is_safe_unit_name-Printable unit h,
        split_once-digits (decimal 10 uid) unit (decimal-digits 10 uid),
        is_safe_unit_name-not_empty unit h,
        parse_unsigned-print_u32 uid fits,
      )
      refl

system_unit-IsUnit :
    (split : Option (List Bytes × Bytes)) (unit : Bytes)
    → system_unit split ≡ some unit
    → IsUnit unit
unfolding system_unit
system_unit-IsUnit split unit e = ground (arith, e)

user_unit-IsUnit :
    (manager : Bytes) (split : Option (List Bytes × Bytes)) (found : Option ℕ) (uid : ℕ)
    (unit : Bytes)
    → user_unit manager split found ≡ some (uid, unit)
    → IsUnit unit × (found ≡ some uid)
unfolding user_unit
user_unit-IsUnit manager split found uid unit e = ground (arith, e)

match_user_unit-IsUnit :
    (parts : List Bytes) (uid : ℕ) (unit : Bytes)
    → match_user_unit parts ≡ some (uid, unit)
    → IsUnit unit × (uid < u32_end)
unfolding match_user_unit
match_user_unit-IsUnit [] uid unit e = absurd (none-some e)
match_user_unit-IsUnit (first ∷ []) uid unit e = absurd (none-some e)
match_user_unit-IsUnit (first ∷ user_slice ∷ []) uid unit e = absurd (none-some e)
match_user_unit-IsUnit (first ∷ user_slice ∷ manager ∷ rest) uid unit e =
    elim (Bool-cases (eqb first (bytes "user.slice"))) [
      | inl same ↦
          let (safe, read) =
            user_unit-IsUnit manager (split_last rest) (uid_of user_slice) uid unit
              (rw (match_user_unit, same) at e) in
          (safe, uid_of-bound user_slice uid read)
      | inr other ↦ absurd (none-some (rw (match_user_unit, other) at e))
    ]

unique_user_unit-IsUnit :
    (parts : List Bytes) (uid : ℕ) (unit : Bytes)
    → unique_user_unit parts ≡ some (uid, unit)
    → IsUnit unit × (uid < u32_end)
unfolding unique_user_unit
unique_user_unit-IsUnit parts uid unit e = elim (Bool-cases (all is_utf8 parts)) [
  | inl text ↦ match_user_unit-IsUnit parts uid unit (rw (unique_user_unit, text) at e)
  | inr other ↦ absurd (none-some (rw (unique_user_unit, other) at e))
]

user_name-valid :
    (relative : Bytes) (user : Option (ℕ × Bytes)) (system : Option Bytes)
    → ((uid : ℕ) (unit : Bytes) → user ≡ some (uid, unit) → IsUnit unit × (uid < u32_end))
    → ((unit : Bytes) → system ≡ some unit → IsUnit unit)
    → is_valid_workload_name (user_name relative user system) ≡ true
unfolding user_name system_name
user_name-valid relative (some (uid, unit)) system u s =
    let (safe, fits) = u uid unit refl in user-valid uid unit fits safe
user_name-valid relative none (some unit) u s = system-valid unit (s unit refl)
user_name-valid relative none none u s = cgroup-valid relative

-- Whatever the root and the path, the database writer takes the name of the workload.
pub canonical_workload_name-valid :
    (root path : Bytes) → is_valid_workload_name (canonical_workload_name root path) ≡ true
unfolding canonical_workload_name name_below unique_system_unit
canonical_workload_name-valid root path =
    let relative = below_root root path in
    user_name-valid relative (unique_user_unit (components relative)) _
      (unique_user_unit-IsUnit (components relative))
      (system_unit-IsUnit (split_last (components relative)))
