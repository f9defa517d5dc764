-- ===== src/Mail/Tests.antt =====
-- A stuffed body, and the theorem at it.
use nvme_disk_mon.Common.{◌≡◌, refl, ◌++◌, Bytes-discrete, ℕ_discrete, bytes, strip_suffix}
use nvme_disk_mon.Mail.Stuffing.{stuff, crlf, end_line, dot_stuff}

stuffed : dot_stuff (bytes "a\n.b") ≡ bytes "a\n..b" ++ crlf
unfolding dot_stuff stuff end_line strip_suffix Bytes-discrete ℕ_discrete
stuffed = refl
