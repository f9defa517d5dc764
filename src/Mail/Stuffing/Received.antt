-- ===== src/Mail/Stuffing/Received.antt =====
-- What a server makes of a stuffed body, by section 4.5.2 of RFC 5321.
use nvme_disk_mon.Common.{
  ◌≡◌, ◌⊎◌, refl, Bool, true, false, not, ◌&&◌, ◌||◌, [], ◌∷◌, ◌++◌, Bytes, ◌==◌, if◌then◌else◌,
  is_some, starts_with, strip_suffix, Bool-cases, inl, inr, arith,
}
use nvme_disk_mon.Mail.Stuffing.{stuff, crlf, end_line, dot_stuff}

-- The server takes away a dot with which a line begins.
unfoldable pub unstuff : Bool → Bytes → Bytes
unstuff line_start [] = []
unstuff line_start (byte ∷ body) =
    let next : Bool → Bytes = λ line_start. unstuff line_start body in
    if line_start && (byte == b'.') then next false else byte ∷ next (byte == 10)

-- Some line begins with a dot that no second dot follows.
unfoldable pub has_lone_dot : Bool → Bytes → Bool
has_lone_dot line_start [] = false
has_lone_dot line_start (byte ∷ body) =
    let rest = has_lone_dot (byte == 10) body in
    if line_start && (byte == b'.') then not (starts_with (b'.' ∷ []) body) || rest else rest

unstuff-stuff :
    (line_start : Bool) (message : Bytes) → unstuff line_start (stuff line_start message) ≡ message
unfolding stuff unstuff
unstuff-stuff line_start [] = refl
unstuff-stuff line_start (byte ∷ message) = ground (arith, unstuff-stuff (byte == 10) message)

unstuff-stuff-crlf :
    (line_start : Bool) (message : Bytes)
    → unstuff line_start (stuff line_start message ++ crlf) ≡ message ++ crlf
unfolding stuff unstuff
unstuff-stuff-crlf true [] = refl
unstuff-stuff-crlf false [] = refl
unstuff-stuff-crlf line_start (byte ∷ message) =
    ground (arith, unstuff-stuff-crlf (byte == 10) message)

has_lone_dot-stuff :
    (line_start : Bool) (message : Bytes)
    → has_lone_dot line_start (stuff line_start message) ≡ false
unfolding stuff has_lone_dot starts_with
has_lone_dot-stuff line_start [] = refl
has_lone_dot-stuff line_start (byte ∷ message) =
    ground (arith, has_lone_dot-stuff (byte == 10) message)

has_lone_dot-stuff-crlf :
    (line_start : Bool) (message : Bytes)
    → has_lone_dot line_start (stuff line_start message ++ crlf) ≡ false
unfolding stuff has_lone_dot starts_with
has_lone_dot-stuff-crlf true [] = refl
has_lone_dot-stuff-crlf false [] = refl
has_lone_dot-stuff-crlf line_start (byte ∷ message) =
    ground (arith, has_lone_dot-stuff-crlf (byte == 10) message)

pub dot_stuff-received :
    (message : Bytes)
    → (has_lone_dot true (dot_stuff message) ≡ false)
      × ((unstuff true (dot_stuff message) ≡ message)
          ⊎ (unstuff true (dot_stuff message) ≡ message ++ crlf))
unfolding dot_stuff end_line
dot_stuff-received message = elim (Bool-cases (is_some (strip_suffix crlf (stuff true message)))) [
  | inl ended ↦
      rw (dot_stuff, ended) (has_lone_dot-stuff true message, inl (unstuff-stuff true message))
  | inr open_line ↦
      rw (dot_stuff, open_line)
        (has_lone_dot-stuff-crlf true message, inr (unstuff-stuff-crlf true message))
]
