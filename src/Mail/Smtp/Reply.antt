-- ===== src/Mail/Smtp/Reply.antt =====
-- `read_response_from`, `read_smtp_line` and `parse_code` of src/mail/smtp.rs. A reader is the bytes that
-- are still to come, and what a read gives behind them: an error, or the end of the stream.
pub mod Lines
pub mod RoundTrip
use nvme_disk_mon.Common.{
  ℕ, zero, suc, ◌+◌, ◌-◌, ◌*◌, Bool, true, false, not, ◌&&◌, ◌||◌, List, [], ◌∷◌, ◌++◌, Option,
  none, some, Bytes, Result, ok, err, fail_if, ◌>>=◌, ◌>>◌, ltb, ◌==◌, if◌then◌else◌, length, take,
  drop, get_or, all, is_empty, is_ascii_digit,
}
use nvme_disk_mon.Mail.Errors.{IoError, invalid_data, unexpected_eof}
use nvme_disk_mon.Writer.Names.{is_utf8}

abbrev pub smtp_max_reply_bytes : ℕ
smtp_max_reply_bytes = 100_000

abbrev pub smtp_max_reply_line_bytes : ℕ
smtp_max_reply_line_bytes = 1_000

pub record Reader : Type 0 where
  pub incoming : Bytes
  pub ending : Option IoError

pub record Response : Type 0 where
  pub code : ℕ
  pub lines : List Bytes

-- `reader.read` behind the last byte
unfoldable pub end_of_reader : Option IoError → IoError
end_of_reader none = unexpected_eof
end_of_reader (some error) = error

-- `line.ends_with(b"\r\n")`
unfoldable pub ends_line : Bytes → Bool
ends_line [] = false
ends_line (a ∷ []) = false
ends_line (a ∷ b ∷ s) =
    let rest = ends_line (b ∷ s) in if is_empty s then (a == 13) && (b == 10) else rest

-- A line with its total and the bytes behind it. The total stays below 2 ^ 32, so that `saturating_add`
-- is the sum.
unfoldable pub read_smtp_line :
    Option IoError → Bytes → ℕ → Bytes → Result (Bytes × ℕ × Bytes) IoError
unfolding end_of_reader ends_line
read_smtp_line ending line total [] = err (end_of_reader ending)
read_smtp_line ending line total (byte ∷ incoming) =
    let longer = line ++ byte ∷ [] in
    let rest = read_smtp_line ending longer (suc total) incoming in
    if ltb smtp_max_reply_line_bytes (length longer) || ltb smtp_max_reply_bytes (suc total)
    then err invalid_data
    else if ends_line longer
    then ok (longer, suc total, incoming)
    else rest

unfoldable pub parse_code : Bytes → Result ℕ IoError
unfolding is_ascii_digit
parse_code (a ∷ b ∷ c ∷ []) =
    if all is_ascii_digit (a ∷ b ∷ c ∷ [])
    then ok ((a - b'0') * 100 + (b - b'0') * 10 + (c - b'0'))
    else err invalid_data
parse_code _ = err invalid_data

-- `code.is_some_and(|expected| expected != current_code)`
unfoldable pub is_inconsistent : Option ℕ → ℕ → Bool
is_inconsistent none current_code = false
is_inconsistent (some expected) current_code = not (expected == current_code)

-- The checks of one line: its code, whether it is the last one, and its text.
unfoldable pub read_fields : Option ℕ → Bytes → Result (ℕ × Bool × Bytes) IoError
unfolding parse_code is_inconsistent ends_line
read_fields code line = do
  fail_if (ltb (length line) 5 || not (ends_line line)) invalid_data
  current_code ← parse_code (take 3 line)
  fail_if (is_inconsistent code current_code) invalid_data
  let separator = get_or line 3 0
  fail_if (not (separator == b'-') && not (separator == b' ')) invalid_data
  let text = take (length line - 6) (drop 4 line)
  fail_if (not (is_utf8 text)) invalid_data
  ok (current_code, separator == b' ', text)

unfoldable pub read_line_fields :
    Option IoError → Option ℕ → ℕ → Bytes → Result (ℕ × Bool × Bytes × ℕ × Bytes) IoError
unfolding read_smtp_line read_fields
read_line_fields ending code total incoming = do
  (line, new_total, rest) ← read_smtp_line ending [] total incoming
  (current_code, last, text) ← read_fields code line
  ok (current_code, last, text, new_total, rest)

-- The loop, one line for each unit of fuel; `none` where the fuel does not do.
unfoldable pub read_lines :
    Option IoError
    → ℕ
    → Option ℕ
    → List Bytes
    → ℕ
    → Bytes
    → Option (Result (Response × Bytes) IoError)
unfolding read_line_fields
read_lines ending zero code lines total incoming = none
read_lines ending (suc fuel) code lines total incoming =
    elim (read_line_fields ending code total incoming) [
      | err error ↦ some (err error)
      | ok (current_code, last, text, new_total, rest) ↦ elim last [
        | true ↦ some (ok (record { code = current_code; lines = lines ++ text ∷ [] }, rest))
        | false ↦ read_lines ending fuel (some current_code) (lines ++ text ∷ []) new_total rest
      ]
    ]

unfoldable pub or_invalid :
    Option (Result (Response × Bytes) IoError) → Result (Response × Bytes) IoError
or_invalid none = err invalid_data
or_invalid (some result) = result

-- Each line takes a byte at least, so that the fuel does.
unfoldable pub read_response_from : Reader → Result (Response × Bytes) IoError
unfolding or_invalid read_lines
read_response_from reader =
    or_invalid (read_lines reader.ending (suc (length reader.incoming)) none [] 0 reader.incoming)
