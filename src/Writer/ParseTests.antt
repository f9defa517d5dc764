-- ===== src/Writer/ParseTests.antt =====
-- Names and counters of small inputs, and the theorems at them.
use nvme_disk_mon.Common.{
  ◌≡◌, refl, true, false, [], ◌∷◌, Bytes, Bytes-discrete, bytes, bytes_key, ℕ_discrete,
  strip_prefix, strip_suffix, split_once, parse_unsigned, parse_digits, is_ascii_digit,
  is_ascii_alphanumeric, is_ascii_graphic, get, insert, contains,
}
use nvme_disk_mon.Database.Validate.{is_valid_workload_name}
use nvme_disk_mon.Config.Paths.{
  Component-discrete, grow, slash_parts, add_component, named_components, first_components,
  path_components, first_blank, step_if, next_blank, is_between, is_blank_from, is_blank,
}
use nvme_disk_mon.Writer.Paths.{
  below_root, components, is_skipped, component_of, next_component, trim_left, trim_right,
  join_body, split_start, whole_path, first_component, strip_body, strip_components, as_os_str,
}
use nvme_disk_mon.Writer.Types.{DeviceNumber, DeviceNumber-discrete, device_number_key}
use nvme_disk_mon.Writer.Names.{
  canonical_workload_name, split_last, is_utf8_from, is_utf8, is_slice_name, is_safe_byte,
  has_suffix, is_safe_unit_name, decimal, print_u32, uid_of, manager_name, user_unit,
  match_user_unit, unique_user_unit, is_slice_component, system_unit, unique_system_unit, is_plain,
  hex_digit, escape_byte, escape_cgroup_path, system_name, user_name, name_below,
}
use nvme_disk_mon.Writer.Names.Valid.{canonical_workload_name-valid}
use nvme_disk_mon.Writer.IoStat.{
  parse_io_stat, is_ascii_whitespace, with_text, pieces, drop_blank, lines_of, fields_of,
  device_number, parse_device_number, read_wbytes, read_field, read_fields, finish_line,
  read_device_line, read_line, read_lines,
}
use nvme_disk_mon.Writer.IoStat.Apart.{IsParsed, parse_io_stat-IsParsed}

-- Opens the names and the parser for a run.
parse_code : Unit {0}
unfolding Bytes-discrete ℕ_discrete DeviceNumber-discrete strip_prefix strip_suffix split_once
    parse_unsigned parse_digits is_ascii_digit is_ascii_alphanumeric is_ascii_graphic get insert
    contains below_root components split_last is_skipped component_of next_component trim_left
    trim_right join_body split_start whole_path first_component strip_body strip_components
    as_os_str Component-discrete grow slash_parts add_component named_components first_components
    path_components first_blank step_if next_blank is_between is_blank_from is_blank is_utf8_from
    is_utf8 is_slice_name is_safe_byte has_suffix is_slice_component is_safe_unit_name decimal
    print_u32 uid_of manager_name user_unit match_user_unit unique_user_unit system_unit
    unique_system_unit is_plain hex_digit escape_byte escape_cgroup_path system_name user_name
    name_below canonical_workload_name is_ascii_whitespace with_text pieces drop_blank lines_of
    fields_of device_number parse_device_number read_wbytes read_field read_fields finish_line
    read_device_line read_line read_lines parse_io_stat
parse_code = tt

abbrev root : Bytes
root = bytes "/sys/fs/cgroup"

system_service :
    canonical_workload_name root (bytes "/sys/fs/cgroup/system.slice/ssh.service")
    ≡ bytes "systemd:system:ssh.service"
unfolding parse_code
system_service = refl

user_service :
    canonical_workload_name root
      (bytes "/sys/fs/cgroup/user.slice/user-1000.slice/user@1000.service/app.slice/a.scope")
    ≡ bytes "systemd:user:1000:a.scope"
unfolding parse_code
user_service = refl

other_group : canonical_workload_name root (bytes "/sys/fs/cgroup/a b") ≡ bytes "cgroup:/a\\x20b"
unfolding parse_code
other_group = refl

-- Repeated slashes and dots count for nothing between components.
odd_slashes :
    canonical_workload_name
      (bytes "/sys//fs/cgroup/")
      (bytes "/sys/./fs/cgroup//system.slice/./a.scope/")
    ≡ bytes "systemd:system:a.scope"
unfolding parse_code
odd_slashes = refl

below_the_root : below_root (bytes "/") (bytes "/a//b/./") ≡ bytes "a//b"
unfolding parse_code
below_the_root = refl

below_nothing : below_root [] (bytes "/a//") ≡ bytes "/a"
unfolding parse_code
below_nothing = refl

not_below : below_root (bytes "/sys/fs") (bytes "/sys/fsx/a/") ≡ bytes "/sys/fsx/a/"
unfolding parse_code
not_below = refl

canonical_workload_name-valid_example :
    is_valid_workload_name (canonical_workload_name root (bytes "/sys/fs/cgroup/a b")) ≡ true
canonical_workload_name-valid_example =
    canonical_workload_name-valid root (bytes "/sys/fs/cgroup/a b")

abbrev number_a : DeviceNumber
number_a = record { major = 259; minor = 0 }

abbrev io_stat : Bytes
io_stat = bytes "8:0 rbytes=1 wbytes=2\n259:0 rbytes=10 wbytes=25 rios=1"

one_counter : (parse_io_stat io_stat (number_a ∷ [])).counters ≡ (number_a, 25) ∷ []
unfolding parse_code
one_counter = refl

-- A line of ideographic spaces is blank.
blank_line : (parse_io_stat (227 ∷ 128 ∷ 128 ∷ 10 ∷ io_stat) []).unscoped_failure ≡ false
unfolding parse_code
blank_line = refl

parse_io_stat-IsParsed_example : IsParsed (number_a ∷ []) (parse_io_stat io_stat (number_a ∷ []))
parse_io_stat-IsParsed_example = parse_io_stat-IsParsed io_stat (number_a ∷ [])
