-- ===== src/Mail/Smtp/Reply/RoundTrip.antt =====
-- The replies that `read_response_from` of src/mail/smtp.rs reads.
use nvme_disk_mon.Common.{
  ℕ, zero, suc, ◌+◌, ◌/◌, ◌%◌, ◌≤◌, ◌<◌, ◌≡◌, refl, ap, ◌∙◌, Bool, true, false, List, [], ◌∷◌, ◌++◌,
  Option, none, some, Bytes, ok, length, is_empty, take, All, is_ascii_digit, length-append, arith,
}
use nvme_disk_mon.Mail.Errors.{IoError}
use nvme_disk_mon.Mail.Smtp.Reply.{
  ends_line, read_smtp_line, parse_code, is_inconsistent, read_fields, read_line_fields, read_lines,
  read_response_from, or_invalid, smtp_max_reply_bytes, smtp_max_reply_line_bytes,
}
use nvme_disk_mon.Mail.Smtp.Reply.Lines.{NoCrlf, NoCrlf-cr, read_smtp_line-more}
use nvme_disk_mon.Writer.Names.{is_utf8}

abbrev separator : Bool → ℕ
separator true = b' '
separator false = b'-'

-- A line on the wire, by section 4.2 of RFC 5321.
abbrev pub wire_line : ℕ → Bool → Bytes → Bytes
wire_line code last text =
    (b'0' + code / 100)
    ∷ (b'0' + code / 10 % 10)
    ∷ (b'0' + code % 10)
    ∷ separator last
    ∷ (text ++ 13 ∷ 10 ∷ [])

abbrev pub wire : ℕ → List Bytes → Bytes → Bytes
wire code [] last = wire_line code true last
wire code (text ∷ texts) last = wire_line code false text ++ wire code texts last

-- A text that a line can hold.
pub record IsText (text : Bytes) : Type 0 where
  pub one_line : NoCrlf text
  pub utf8 : is_utf8 text ≡ true
  pub fits : length text + 6 ≤ smtp_max_reply_line_bytes

ends_line-crlf : (l : Bytes) → ends_line (l ++ 13 ∷ 10 ∷ []) ≡ true
unfolding ends_line
ends_line-crlf [] = refl
ends_line-crlf (x ∷ []) = refl
ends_line-crlf (x ∷ y ∷ l) = ground (arith, ends_line-crlf (y ∷ l), go l)
  where
    go : (l : Bytes) → is_empty (l ++ 13 ∷ 10 ∷ []) ≡ false
    go [] = refl
    go (z ∷ l) = refl

take-append : (s t : Bytes) → take (length s) (s ++ t) ≡ s
take-append [] t = refl
take-append (x ∷ s) t = ap (◌∷◌ x) (take-append s t)

parse_code-wire :
    (code : ℕ)
    → code < 1000
    → parse_code ((b'0' + code / 100) ∷ (b'0' + code / 10 % 10) ∷ (b'0' + code % 10) ∷ []) ≡ ok code
unfolding parse_code is_ascii_digit
parse_code-wire code h = ground arith

read_fields-wire :
    (expected : Option ℕ) (code : ℕ) (last : Bool) (text : Bytes)
    → code < 1000
    → is_inconsistent expected code ≡ false
    → is_utf8 text ≡ true
    → read_fields expected (wire_line code last text) ≡ ok (code, last, text)
unfolding read_fields
read_fields-wire expected code last text small consistent utf8 =
    let line =
      (b'0' + code / 100) ∷ (b'0' + code / 10 % 10) ∷ (b'0' + code % 10) ∷ separator last ∷ text in
    ground (
      arith,
      parse_code-wire code small,
      ends_line-crlf line,
      take-append text (13 ∷ 10 ∷ []),
      length-append text (13 ∷ 10 ∷ []),
    )

append-crlf : (s rest : Bytes) → (s ++ 13 ∷ 10 ∷ []) ++ rest ≡ s ++ 13 ∷ 10 ∷ rest
append-crlf [] rest = refl
append-crlf (x ∷ s) rest = ap (◌∷◌ x) (append-crlf s rest)

length-wire_line :
    (code : ℕ) (last : Bool) (text : Bytes) → length (wire_line code last text) ≡ length text + 6
length-wire_line code last text = omega (arith, length-append text (13 ∷ 10 ∷ []))

digit-NoCrlf :
    (code : ℕ) (last : Bool) (s : Bytes)
    → NoCrlf s
    → NoCrlf
        ((b'0' + code / 100) ∷ (b'0' + code / 10 % 10) ∷ (b'0' + code % 10) ∷ separator last ∷ s)
digit-NoCrlf code true [] h = ground arith
digit-NoCrlf code false [] h = ground arith
digit-NoCrlf code true (x ∷ s) h = ground arith
digit-NoCrlf code false (x ∷ s) h = ground arith

read_smtp_line-wire :
    (ending : Option IoError) (code : ℕ) (last : Bool) (text : Bytes) (total : ℕ) (rest : Bytes)
    → IsText text
    → total + (length text + 6) ≤ smtp_max_reply_bytes
    → read_smtp_line ending [] total (wire_line code last text ++ rest)
      ≡ ok (wire_line code last text, total + (length text + 6), rest)
unfolding read_smtp_line ends_line
read_smtp_line-wire ending code last text total rest it fits =
    let first = b'0' + code / 100 in
    let more = (b'0' + code / 10 % 10) ∷ (b'0' + code % 10) ∷ separator last ∷ text in
    let free = digit-NoCrlf code last (text ++ 13 ∷ []) (NoCrlf-cr text it.one_line) in
    let sums : suc total + length more + 2 ≡ total + (length text + 6) = omega arith in
    let it =
      read_smtp_line-more ending [] first more (suc total) rest free (omega (arith, it.fits))
        (omega arith) in
    let step : read_smtp_line ending [] total (wire_line code last text ++ rest)
        ≡ read_smtp_line ending (first ∷ []) (suc total) (more ++ 13 ∷ 10 ∷ rest) =
      ground (arith, append-crlf text rest) in
    step ∙ it ∙ rw sums refl

read_line_fields-wire :
    (ending : Option IoError) (expected : Option ℕ) (code : ℕ) (last : Bool) (text : Bytes)
    (total : ℕ) (rest : Bytes)
    → code < 1000
    → is_inconsistent expected code ≡ false
    → IsText text
    → total + (length text + 6) ≤ smtp_max_reply_bytes
    → read_line_fields ending expected total (wire_line code last text ++ rest)
      ≡ ok (code, last, text, total + (length text + 6), rest)
unfolding read_line_fields
read_line_fields-wire ending expected code last text total rest small consistent it fits = ground (
  arith,
  read_smtp_line-wire ending code last text total rest it fits,
  read_fields-wire expected code last text small consistent it.utf8,
)

append_assoc : (a b c : Bytes) → (a ++ b) ++ c ≡ a ++ (b ++ c)
append_assoc [] b c = refl
append_assoc (x ∷ a) b c = ap (◌∷◌ x) (append_assoc a b c)

append_last-append :
    (lines : List Bytes) (text : Bytes) (texts : List Bytes)
    → (lines ++ text ∷ []) ++ texts ≡ lines ++ text ∷ texts
append_last-append [] text texts = refl
append_last-append (x ∷ lines) text texts = ap (◌∷◌ x) (append_last-append lines text texts)

read_lines-wire :
    (ending : Option IoError) (fuel : ℕ) (expected : Option ℕ) (lines : List Bytes) (total : ℕ)
    (code : ℕ) (texts : List Bytes) (last rest : Bytes)
    → length texts < fuel
    → code < 1000
    → is_inconsistent expected code ≡ false
    → All IsText texts
    → IsText last
    → total + length (wire code texts last) ≤ smtp_max_reply_bytes
    → read_lines ending fuel expected lines total (wire code texts last ++ rest)
      ≡ some (ok (record { code = code; lines = lines ++ (texts ++ last ∷ []) }, rest))
unfolding read_lines
read_lines-wire ending zero expected lines total code texts last rest fuelled small consistent each
      final fits =
    ground arith
read_lines-wire ending (suc fuel) expected lines total code [] last rest fuelled small consistent
      each final fits =
    ground (
      arith,
      length-wire_line code true last,
      read_line_fields-wire ending expected code true last total rest small consistent final,
    )
read_lines-wire ending (suc fuel) expected lines total code (text ∷ texts) last rest fuelled small
      consistent each final fits =
    let long = length-append (wire_line code false text) (wire code texts last) in
    let long_line = length-wire_line code false text in
    let assoc = append_assoc (wire_line code false text) (wire code texts last) rest in
    let first =
      read_line_fields-wire ending expected code false text total (wire code texts last ++ rest)
        small consistent each.0 (omega (arith, long, long_line)) in
    let ih =
      read_lines-wire ending fuel (some code) (lines ++ text ∷ []) (total + (length text + 6)) code
        texts last rest (omega arith) small (ground arith) each.1 final
        (omega (arith, long, long_line)) in
    rw assoc
      (rw (first, read_lines) (ih ∙ rw (append_last-append lines text (texts ++ last ∷ [])) refl))

lines-wire :
    (code : ℕ) (texts : List Bytes) (last : Bytes) → length texts ≤ length (wire code texts last)
lines-wire code [] last = omega arith
lines-wire code (text ∷ texts) last = omega (
  arith,
  lines-wire code texts last,
  length-append (wire_line code false text) (wire code texts last),
  length-wire_line code false text,
)

-- A reply whose code has at most three digits, whose texts are UTF-8 without CRLF and fit in a
-- line, and which is not too long as a whole, is read with its code and its texts, and what
-- follows it stays in the reader.
pub read_response_from-wire :
    (ending : Option IoError) (code : ℕ) (texts : List Bytes) (last rest : Bytes)
    → code < 1000
    → All IsText texts
    → IsText last
    → length (wire code texts last) ≤ smtp_max_reply_bytes
    → read_response_from (record { incoming = wire code texts last ++ rest; ending = ending })
      ≡ ok (record { code = code; lines = texts ++ last ∷ [] }, rest)
unfolding read_response_from or_invalid is_inconsistent
read_response_from-wire ending code texts last rest small each final fits =
    let incoming = wire code texts last ++ rest in
    let fuelled : length texts < suc (length incoming) =
      omega (arith, lines-wire code texts last, length-append (wire code texts last) rest) in
    rw
      (read_lines-wire ending (suc (length incoming)) none [] 0 code texts last rest fuelled small
        refl each final (omega arith))
      refl
