-- ===== src/Config/Paths.antt =====
-- `is_by_id_path` of src/config.rs, with the methods of the standard library that src/config.rs and
-- src/writer/collector.rs use: the test for blank text by `str::trim`, and `Path::components`.
use nvme_disk_mon.Common.{
  ℕ, Bool, true, false, ◌&&◌, ◌||◌, List, [], ◌∷◌, Option, none, some, Bytes, bytes, bytes_key, Key,
  ℕ_discrete, eqb, leb, ◌==◌, if◌then◌else◌, is_empty,
}

-- Which bytes of a `White_Space` character were read last, in UTF-8.
pub data Blank : Type 0 where
  between after_c2 after_e1 after_e19a after_e2 after_e280 after_e281 after_e3 after_e380 : Blank

unfoldable pub first_blank : ℕ → Option Blank
first_blank byte =
    if (leb 0x09 byte && leb byte 0x0d) || byte == 0x20
    then some between
    else if byte == 0xc2
    then some after_c2
    else if byte == 0xe1
    then some after_e1
    else if byte == 0xe2
    then some after_e2
    else if byte == 0xe3
    then some after_e3
    else none

unfoldable pub step_if : Bool → Blank → Option Blank
step_if true state = some state
step_if false state = none

unfoldable pub next_blank : Blank → ℕ → Option Blank
unfolding first_blank step_if
next_blank between byte = first_blank byte
next_blank after_c2 byte = step_if (byte == 0x85 || byte == 0xa0) between
next_blank after_e1 byte = step_if (byte == 0x9a) after_e19a
next_blank after_e19a byte = step_if (byte == 0x80) between
next_blank after_e2 byte =
    if byte == 0x80 then some after_e280 else step_if (byte == 0x81) after_e281
next_blank after_e280 byte =
    step_if (leb byte 0x8a || (byte == 0xa8 || (byte == 0xa9 || byte == 0xaf))) between
next_blank after_e281 byte = step_if (byte == 0x9f) between
next_blank after_e3 byte = step_if (byte == 0x80) after_e380
next_blank after_e380 byte = step_if (byte == 0x80) between

unfoldable pub is_between : Blank → Bool
is_between between = true
is_between _ = false

unfoldable pub is_blank_from : Option Blank → Bytes → Bool
unfolding next_blank is_between
is_blank_from none s = false
is_blank_from (some state) [] = is_between state
is_blank_from (some state) (byte ∷ s) = is_blank_from (next_blank state byte) s

-- `s.trim().is_empty()`
unfoldable pub is_blank : Bytes → Bool
unfolding is_blank_from
is_blank s = is_blank_from (some between) s

-- `std::path::Component`
pub data Component : Type 0 where
  root_dir cur_dir parent_dir : Component
  normal : Bytes → Component

unfoldable pub Component-discrete : Discrete Component
unfolding ℕ_discrete
Component-discrete = hlevel ℕ_discrete

instance abbrev pub component_key : Key Component
component_key = record { same = Component-discrete }

unfoldable pub components-discrete : Discrete (List Component)
unfolding ℕ_discrete
components-discrete = hlevel ℕ_discrete

-- `Path` compares the components.
instance abbrev pub path_key : Key (List Component)
path_key = record { same = components-discrete }

unfoldable pub grow : ℕ → List Bytes → List Bytes
grow c [] = (c ∷ []) ∷ []
grow c (part ∷ parts) = (c ∷ part) ∷ parts

-- What stands between the slashes; an empty last part is dropped.
unfoldable pub slash_parts : Bytes → List Bytes
unfolding grow
slash_parts [] = []
slash_parts (c ∷ path) =
    let parts = slash_parts path in if c == b'/' then [] ∷ parts else grow c parts

-- Empty parts and dots in the middle of a path count for nothing.
unfoldable pub add_component : Bytes → List Component → List Component
add_component part rest =
    if is_empty part || eqb part (bytes ".")
    then rest
    else if eqb part (bytes "..")
    then parent_dir ∷ rest
    else normal part ∷ rest

unfoldable pub named_components : List Bytes → List Component
unfolding add_component
named_components [] = []
named_components (part ∷ parts) = add_component part (named_components parts)

-- Only a dot at the start of a relative path is a component.
unfoldable pub first_components : List Bytes → List Component
unfolding named_components
first_components [] = []
first_components (part ∷ parts) =
    if is_empty part
    then root_dir ∷ named_components parts
    else if eqb part (bytes ".")
    then cur_dir ∷ named_components parts
    else named_components (part ∷ parts)

-- `path.components()`
unfoldable pub path_components : Bytes → List Component
unfolding slash_parts first_components
path_components path = first_components (slash_parts path)

unfoldable pub is_by_id_components : List Component → Bool
is_by_id_components (root_dir ∷ normal dev ∷ normal disk ∷ normal by_id ∷ normal name ∷ []) =
    eqb dev (bytes "dev") && (eqb disk (bytes "disk") && eqb by_id (bytes "by-id"))
is_by_id_components _ = false

unfoldable pub is_by_id_path : Bytes → Bool
unfolding is_by_id_components
is_by_id_path path = is_by_id_components (path_components path)
