-- ===== src/Writer/Paths.antt =====
-- `Path::strip_prefix` and the names of `Path::components` of the standard library, which
-- `canonical_workload_name` of src/writer/collector.rs uses. The body of a path is what stands between
-- its slashes, the empty parts too but for the last one, which `trim_right` drops anyway.
use nvme_disk_mon.Common.{
  ℕ, Bool, ◌&&◌, ◌||◌, List, [], ◌∷◌, ◌++◌, Option, none, some, Bytes, bytes, bytes_key, eqb, map,
  ◌==◌, if◌then◌else◌, is_empty,
}
use nvme_disk_mon.Config.Paths.{
  Component, root_dir, cur_dir, parent_dir, normal, component_key, slash_parts, path_components,
}

-- Parts of the body that are no component
unfoldable pub is_skipped : Bytes → Bool
is_skipped part = is_empty part || eqb part (bytes ".")

unfoldable pub component_of : Bytes → Component
component_of part = if eqb part (bytes "..") then parent_dir else normal part

-- The next component of a body, with the body behind it
unfoldable pub next_component : List Bytes → Option (Component × List Bytes)
unfolding is_skipped component_of
next_component [] = none
next_component (part ∷ parts) =
    let rest = next_component parts in
    if is_skipped part then rest else some (component_of part, parts)

unfoldable pub trim_left : List Bytes → List Bytes
unfolding is_skipped
trim_left [] = []
trim_left (part ∷ parts) =
    let rest = trim_left parts in if is_skipped part then rest else part ∷ parts

unfoldable pub trim_right : List Bytes → List Bytes
unfolding is_skipped
trim_right [] = []
trim_right (part ∷ parts) =
    let rest = trim_right parts in if is_empty rest && is_skipped part then [] else part ∷ rest

unfoldable pub join_body : List Bytes → Bytes
join_body [] = []
join_body (part ∷ []) = part
join_body (part ∷ next ∷ parts) = part ++ b'/' ∷ join_body (next ∷ parts)

-- What stands in front of the body as a component of its own: a slash, or a dot alone or before one
unfoldable pub split_start : Bytes → Option (ℕ × Component × Bytes)
split_start [] = none
split_start (c ∷ []) =
    if c == b'/'
    then some (c, root_dir, [])
    else (if c == b'.' then some (c, cur_dir, []) else none)
split_start (c ∷ d ∷ path) =
    if c == b'/'
    then some (c, root_dir, d ∷ path)
    else (if c == b'.' && (d == b'/') then some (c, cur_dir, d ∷ path) else none)

-- `components.as_path()` before the first component is taken
unfoldable pub whole_path : Bytes → Bytes
unfolding split_start slash_parts trim_right join_body
whole_path path = elim (split_start path) [
  | none ↦ join_body (trim_right (slash_parts path))
  | some (start, component, rest) ↦ start ∷ join_body (trim_right (slash_parts rest))
]

unfoldable pub first_component : Bytes → Option (Component × List Bytes)
unfolding split_start slash_parts next_component
first_component path = elim (split_start path) [
  | none ↦ next_component (slash_parts path)
  | some (start, component, rest) ↦ some (component, slash_parts rest)
]

-- `iter_after`, inside of the body
unfoldable pub strip_body : List Component → List Bytes → Option Bytes
unfolding next_component trim_left trim_right join_body
strip_body [] parts = some (join_body (trim_right (trim_left parts)))
strip_body (expected ∷ base) parts = elim (next_component parts) [
  | none ↦ none
  | some (component, rest) ↦ if eqb component expected then strip_body base rest else none
]

unfoldable pub strip_components : List Component → Bytes → Option Bytes
unfolding whole_path first_component strip_body
strip_components [] path = some (whole_path path)
strip_components (expected ∷ base) path = elim (first_component path) [
  | none ↦ none
  | some (component, rest) ↦ if eqb component expected then strip_body base rest else none
]

-- `path.strip_prefix(root).unwrap_or(path)`
unfoldable pub below_root : Bytes → Bytes → Bytes
unfolding strip_components
below_root root path = elim (strip_components (path_components root) path) [
  | none ↦ path
  | some relative ↦ relative
]

-- `component.as_os_str()`
unfoldable pub as_os_str : Component → Bytes
as_os_str root_dir = bytes "/"
as_os_str cur_dir = bytes "."
as_os_str parent_dir = bytes ".."
as_os_str (normal name) = name

-- `path.components().map(Component::as_os_str).collect()`
unfoldable pub components : Bytes → List Bytes
unfolding as_os_str
components path = map as_os_str (path_components path)
