-- ===== src/Common/Text.antt =====
-- Text as bytes: the program walks its paths, names and identifiers byte by byte.
use Prim.Native.Char.{code}
use Prim.Native.Nat.{ℕ, ◌+◌, ◌-◌, ◌*◌}
use Prim.Native.String.{String}
use mathlib.Core.Bool.{Bool, true, false, ◌&&◌, ◌||◌}
use mathlib.Core.List.{List, [], ◌∷◌}
use mathlib.Core.Option.{Option, none, some}
use native.Mathlib.Decide.{ℕ_discrete}
use nvme_disk_mon.Common.Lists.{is_empty}
use nvme_disk_mon.Common.Maps.{Key, eqb}
use nvme_disk_mon.Common.Tests.{ltb, leb, ◌==◌, if◌then◌else◌}

abbrev pub Bytes : Type 0
Bytes = List ℕ

-- The bytes of an ASCII literal.
abbrev pub bytes : String → Bytes
bytes String.[] = []
bytes (String.◌∷◌ c s) = code c ∷ bytes s

unfoldable pub Bytes-discrete : Discrete Bytes
unfolding ℕ_discrete
Bytes-discrete = hlevel ℕ_discrete

instance abbrev pub bytes_key : Key Bytes
bytes_key = record { same = Bytes-discrete }

instance abbrev pub ℕ_key : Key ℕ
ℕ_key = record { same = ℕ_discrete }

-- `s.starts_with(p)`
unfoldable pub starts_with : Bytes → Bytes → Bool
starts_with [] s = true
starts_with (c ∷ p) [] = false
starts_with (c ∷ p) (d ∷ s) = if c == d then starts_with p s else false

-- `s.strip_prefix(p)`
unfoldable pub strip_prefix : Bytes → Bytes → Option Bytes
strip_prefix [] s = some s
strip_prefix (c ∷ p) [] = none
strip_prefix (c ∷ p) (d ∷ s) = if c == d then strip_prefix p s else none

-- `s.strip_suffix(p)`
unfoldable pub strip_suffix : Bytes → Bytes → Option Bytes
strip_suffix p [] = if is_empty p then some [] else none
strip_suffix p (c ∷ s) =
    let rest = strip_suffix p s in
    if eqb p (c ∷ s) then some [] else elim rest [ none ↦ none | some stem ↦ some (c ∷ stem) ]

-- `s.split_once(c)`
unfoldable pub split_once : ℕ → Bytes → Option (Bytes × Bytes)
split_once c [] = none
split_once c (d ∷ s) =
    let rest = split_once c s in
    if c == d
    then some ([], s)
    else elim rest [ none ↦ none | some (left, right) ↦ some (d ∷ left, right) ]

unfoldable pub is_ascii_digit : ℕ → Bool
is_ascii_digit c = leb b'0' c && leb c b'9'

unfoldable pub is_ascii_alphanumeric : ℕ → Bool
is_ascii_alphanumeric c =
    (leb b'0' c && leb c b'9') || ((leb b'A' c && leb c b'Z') || (leb b'a' c && leb c b'z'))

unfoldable pub is_ascii_graphic : ℕ → Bool
is_ascii_graphic c = leb 33 c && leb c 126

unfoldable pub is_ascii_control : ℕ → Bool
is_ascii_control c = ltb c 32 || c == 127

-- The digits of `str::parse` for an unsigned type with the given end; each step is checked.
unfoldable pub parse_digits : ℕ → ℕ → Bytes → Option ℕ
parse_digits end n [] = some n
parse_digits end n (c ∷ s) =
    let next = n * 10 + (c - b'0') in
    let rest = parse_digits end next s in if is_ascii_digit c && ltb next end then rest else none

-- `s.parse()` for an unsigned type: an optional plus sign, then at least one digit.
unfoldable pub parse_unsigned : ℕ → Bytes → Option ℕ
parse_unsigned end [] = none
parse_unsigned end (c ∷ []) = parse_digits end 0 (c ∷ [])
parse_unsigned end (c ∷ d ∷ s) =
    if c == b'+' then parse_digits end 0 (d ∷ s) else parse_digits end 0 (c ∷ d ∷ s)
