-- ===== src/Mail/Smtp/Ehlo.antt =====
-- `Capabilities::from_ehlo` of src/mail/smtp.rs.
use nvme_disk_mon.Common.{
  ℕ, ◌+◌, Bool, true, false, ◌&&◌, List, [], ◌∷◌, Bytes, bytes, bytes_key, ◌==◌, leb, if◌then◌else◌,
  insert_set,
}
use nvme_disk_mon.Writer.IoStat.{fields_of}

pub record Capabilities : Type 0 where
  pub starttls : Bool
  pub auth : List Bytes

abbrev pub default : Capabilities
default = record { starttls = false; auth = [] }

unfoldable pub to_ascii_lowercase : ℕ → ℕ
to_ascii_lowercase c = if leb b'A' c && leb c b'Z' then c + 32 else c

unfoldable pub eq_ignore_ascii_case : Bytes → Bytes → Bool
unfolding to_ascii_lowercase
eq_ignore_ascii_case [] [] = true
eq_ignore_ascii_case (a ∷ s) (b ∷ t) =
    (to_ascii_lowercase a == to_ascii_lowercase b) && eq_ignore_ascii_case s t
eq_ignore_ascii_case _ _ = false

unfoldable pub add_mechanism : List Bytes → Bytes → List Bytes
unfolding eq_ignore_ascii_case insert_set
add_mechanism auth mechanism =
    if eq_ignore_ascii_case mechanism (bytes "PLAIN")
    then insert_set auth (bytes "PLAIN")
    else if eq_ignore_ascii_case mechanism (bytes "XOAUTH2")
    then insert_set auth (bytes "XOAUTH2")
    else if eq_ignore_ascii_case mechanism (bytes "OAUTHBEARER")
    then insert_set auth (bytes "OAUTHBEARER")
    else auth

unfoldable pub add_mechanisms : List Bytes → List Bytes → List Bytes
unfolding add_mechanism
add_mechanisms auth [] = auth
add_mechanisms auth (mechanism ∷ mechanisms) =
    add_mechanisms (add_mechanism auth mechanism) mechanisms

unfoldable pub add_starttls : Capabilities → Bytes → Capabilities
unfolding eq_ignore_ascii_case
add_starttls capabilities first =
    if eq_ignore_ascii_case first (bytes "STARTTLS")
    then record capabilities { starttls = true }
    else capabilities

unfoldable pub add_words : Capabilities → List Bytes → Capabilities
unfolding add_starttls add_mechanisms
add_words capabilities [] = capabilities
add_words capabilities (first ∷ words) =
    let seen = add_starttls capabilities first in
    if eq_ignore_ascii_case first (bytes "AUTH")
    then record seen { auth = add_mechanisms seen.auth words }
    else seen

unfoldable pub add_lines : Capabilities → List Bytes → Capabilities
unfolding add_words
add_lines capabilities [] = capabilities
add_lines capabilities (line ∷ lines) = add_lines (add_words capabilities (fields_of line)) lines

unfoldable pub from_ehlo : List Bytes → Capabilities
unfolding add_lines
from_ehlo lines = add_lines default lines
