-- ===== src/Mail/Stuffing.antt =====
-- `dot_stuff` of src/mail/smtp.rs: the body of a message on the wire, where a line with a single dot
-- would end it.
pub mod Received
use nvme_disk_mon.Common.{
  ℕ, Bool, true, false, ◌&&◌, List, [], ◌∷◌, ◌++◌, Bytes, ◌==◌, if◌then◌else◌, is_some,
  strip_suffix,
}

-- The loop, from `line_start` on.
unfoldable pub stuff : Bool → Bytes → Bytes
stuff line_start [] = []
stuff line_start (byte ∷ message) =
    let rest = stuff (byte == 10) message in
    if line_start && (byte == b'.') then b'.' ∷ byte ∷ rest else byte ∷ rest

abbrev pub crlf : Bytes
crlf = 13 ∷ 10 ∷ []

unfoldable pub end_line : Bytes → Bytes
end_line output = if is_some (strip_suffix crlf output) then output else output ++ crlf

unfoldable pub dot_stuff : Bytes → Bytes
unfolding stuff end_line
dot_stuff message = end_line (stuff true message)
