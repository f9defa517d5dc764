-- ===== src/Mail/Smtp/Reply/Lines.antt =====
-- The lines that `read_response_from` of src/mail/smtp.rs reads, and that its fuel does.
use nvme_disk_mon.Common.{
  ℕ, zero, suc, ◌+◌, ◌≤◌, ◌<◌, ◌≡◌, refl, ap, ◌∙◌, Bool, true, false, ◌&&◌, List, [], ◌∷◌, ◌++◌,
  Option, some, Bytes, ok, inl, inr, ◌==◌, length, is_empty, is_some, Result-cases, length-append,
  arith,
}
use nvme_disk_mon.Mail.Errors.{IoError}
use nvme_disk_mon.Mail.Smtp.Reply.{
  ends_line, read_smtp_line, read_line_fields, read_lines, smtp_max_reply_bytes,
  smtp_max_reply_line_bytes,
}

rest_shorter :
    (ending : Option IoError) (line : Bytes) (total : ℕ) (incoming : Bytes)
    (out : Bytes × ℕ × Bytes)
    → read_smtp_line ending line total incoming ≡ ok out
    → suc (length out.2) ≤ length incoming
unfolding read_smtp_line
rest_shorter ending line total [] out h = ground arith
rest_shorter ending line total (byte ∷ incoming) out h =
    ground (arith, rest_shorter ending (line ++ byte ∷ []) (suc total) incoming out)

line_fields_shorter :
    (ending : Option IoError) (code : Option ℕ) (total : ℕ) (incoming : Bytes) (c : ℕ) (last : Bool)
    (text : Bytes) (new_total : ℕ) (rest : Bytes)
    → read_line_fields ending code total incoming ≡ ok (c, last, text, new_total, rest)
    → suc (length rest) ≤ length incoming
unfolding read_line_fields
line_fields_shorter ending code total incoming c last text new_total rest h =
    elim (Result-cases (read_smtp_line ending [] total incoming)) [
      | inr (e, q) ↦ ground arith
      | inl (out, q) ↦ ground (arith, rest_shorter ending [] total incoming out q)
    ]

pub enough_fuel :
    (ending : Option IoError) (fuel : ℕ) (code : Option ℕ) (lines : List Bytes) (total : ℕ)
    (incoming : Bytes)
    → length incoming < fuel
    → is_some (read_lines ending fuel code lines total incoming) ≡ true
unfolding read_lines
enough_fuel ending zero code lines total incoming h = ground arith
enough_fuel ending (suc fuel) code lines total incoming h =
    elim (Result-cases (read_line_fields ending code total incoming)) [
      | inr (e, q) ↦ ground arith
      | inl ((c, true, text, t, rest), q) ↦ ground arith
      | inl ((c, false, text, t, rest), q) ↦ ground (
        arith,
        line_fields_shorter ending code total incoming c false text t rest q,
        enough_fuel ending fuel (some c) (lines ++ text ∷ []) t rest,
      )
    ]

-- No CRLF stands in the text.
abbrev pub NoCrlf : Bytes → Type 0
NoCrlf [] = Unit
NoCrlf (a ∷ []) = Unit
NoCrlf (a ∷ b ∷ s) = (((a == 13) && (b == 10)) ≡ false) × NoCrlf (b ∷ s)

pub NoCrlf-cr : (s : Bytes) → NoCrlf s → NoCrlf (s ++ 13 ∷ [])
NoCrlf-cr [] h = tt
NoCrlf-cr (a ∷ []) h = ground arith
NoCrlf-cr (a ∷ b ∷ s) h = (h.0, NoCrlf-cr (b ∷ s) h.1)

append-two : (l : Bytes) (a b : ℕ) → (l ++ a ∷ []) ++ b ∷ [] ≡ l ++ a ∷ b ∷ []
append-two [] a b = refl
append-two (x ∷ l) a b = ap (◌∷◌ x) (append-two l a b)

is_empty-append_last : (l : Bytes) (a : ℕ) → is_empty (l ++ a ∷ []) ≡ false
is_empty-append_last [] a = refl
is_empty-append_last (x ∷ l) a = refl

ends_line-append_two :
    (l : Bytes) (a b : ℕ) → ends_line ((l ++ a ∷ []) ++ b ∷ []) ≡ ((a == 13) && (b == 10))
unfolding ends_line
ends_line-append_two [] a b = refl
ends_line-append_two (x ∷ []) a b = refl
ends_line-append_two (x ∷ y ∷ l) a b =
    ground (arith, ends_line-append_two (y ∷ l) a b, is_empty-append_last (l ++ a ∷ []) b)

append-three : (l m : Bytes) (a : ℕ) → (l ++ a ∷ []) ++ m ≡ l ++ a ∷ m
append-three [] m a = refl
append-three (x ∷ l) m a = ap (◌∷◌ x) (append-three l m a)

-- Bytes that go on behind `l ++ a ∷ []` without a CRLF, and then one that ends the line.
pub read_smtp_line-more :
    (ending : Option IoError) (l : Bytes) (a : ℕ) (more : Bytes) (total : ℕ) (rest : Bytes)
    → NoCrlf (a ∷ (more ++ 13 ∷ []))
    → length l + length more + 3 ≤ smtp_max_reply_line_bytes
    → total + length more + 2 ≤ smtp_max_reply_bytes
    → read_smtp_line ending (l ++ a ∷ []) total (more ++ 13 ∷ 10 ∷ rest)
      ≡ ok (l ++ a ∷ (more ++ 13 ∷ 10 ∷ []), total + length more + 2, rest)
unfolding read_smtp_line
read_smtp_line-more ending l a [] total rest h line_fits fits = ground (
  arith,
  length-append l (a ∷ []),
  length-append (l ++ a ∷ []) (13 ∷ []),
  length-append ((l ++ a ∷ []) ++ 13 ∷ []) (10 ∷ []),
  ends_line-append_two l a 13,
  ends_line-append_two (l ++ a ∷ []) 13 10,
  append-three l (13 ∷ []) a,
  append-three (l ++ a ∷ []) (10 ∷ []) 13,
  append-three l (13 ∷ 10 ∷ []) a,
)
read_smtp_line-more ending l a (b ∷ more) total rest h line_fits fits =
    let sums : suc total + length more + 2 ≡ total + suc (length more) + 2 = omega arith in
    let ih =
      read_smtp_line-more ending (l ++ a ∷ []) b more (suc total) rest h.1
        (omega (arith, length-append l (a ∷ []))) (omega arith) in
    let tail = more ++ 13 ∷ 10 ∷ rest in
    let step : read_smtp_line ending (l ++ a ∷ []) total (b ∷ tail)
        ≡ read_smtp_line ending ((l ++ a ∷ []) ++ b ∷ []) (suc total) tail =
      ground (
        arith,
        length-append l (a ∷ []),
        length-append (l ++ a ∷ []) (b ∷ []),
        ends_line-append_two l a b,
        h.0,
      ) in
    let same : ok ((l ++ a ∷ []) ++ (b ∷ (more ++ 13 ∷ 10 ∷ [])), suc total + length more + 2, rest)
        ≡ ok (l ++ a ∷ b ∷ (more ++ 13 ∷ 10 ∷ []), total + suc (length more) + 2, rest) =
      rw (append-three l (b ∷ (more ++ 13 ∷ 10 ∷ [])) a, sums) refl in
    step ∙ ih ∙ same
