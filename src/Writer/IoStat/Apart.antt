-- ===== src/Writer/IoStat/Apart.antt =====
-- What a parsed io.stat holds.
use nvme_disk_mon.Common.{
  ℕ, ◌≡◌, refl, subst, Bool, true, false, ◌||◌, List, [], ◌∷◌, Option, none, some, Bytes, is_some,
  get, insert, contains, get-insert, contains-insert_set, Bool-cases, Option-cases, inl, inr, arith,
  ite, if_neg,
}
use nvme_disk_mon.Writer.Types.{DeviceNumber, device_number_key}
use nvme_disk_mon.Writer.IoStat.{
  ParsedIoStat, FieldLoop, remove_counter, fail_device, finish_line, read_device_line, read_line,
  read_lines, parse_io_stat, fields_of, parse_device_number, lines_of,
}

get-remove_counter :
    (counters : List (DeviceNumber × ℕ)) (device other : DeviceNumber)
    → get (remove_counter counters device) other
      ≡ ite (device_number_key.same other device) none (get counters other)
unfolding get remove_counter
get-remove_counter [] device other = ground arith
get-remove_counter ((number, amount) ∷ counters) device other =
    ground (arith, get-remove_counter counters device other)

true-false : {b : Bool} → b ≡ true → b ≡ false → ⊥
true-false e f = ground (arith, e, f)

-- A failed device has no counter, and a device with a counter is monitored.
pub record IsParsed (monitored : List DeviceNumber) (p : ParsedIoStat) : Type 0 where
  pub apart :
      (device : DeviceNumber)
      → contains p.failed_devices device ≡ true
      → get p.counters device ≡ none
  pub known :
      (device : DeviceNumber) → contains monitored device ≡ false → get p.counters device ≡ none

module _ (monitored : List DeviceNumber) where
  fail_device-IsParsed :
      (p : ParsedIoStat) (device : DeviceNumber)
      → IsParsed monitored p
      → IsParsed monitored (fail_device p device)
  unfolding fail_device
  fail_device-IsParsed p device h = record {
    apart = λ other e. ground (
      arith,
      e,
      h.apart other,
      get-remove_counter p.counters device other,
      contains-insert_set p.failed_devices device other,
    );
    known = λ other e. ground (arith, h.known other e, get-remove_counter p.counters device other);
  }

  insert-IsParsed :
      (p : ParsedIoStat) (device : DeviceNumber) (amount : ℕ)
      → contains monitored device ≡ true
      → contains p.failed_devices device ≡ false
      → IsParsed monitored p
      → IsParsed monitored (record p { counters = insert p.counters device amount })
  insert-IsParsed p device amount known fresh h = record {
    apart = λ other e. elim (device_number_key.same other device) [
      | yes same ↦
          absurd (true-false (subst (λ x. contains p.failed_devices x ≡ true) same e) fresh)
      | no ne ↦
          rw
            (
              get-insert p.counters device other amount,
              if_neg (device_number_key.same other device) ne,
            )
            (h.apart other e)
    ];
    known = λ other e. elim (device_number_key.same other device) [
      | yes same ↦ absurd (true-false known (subst (λ x. contains monitored x ≡ false) same e))
      | no ne ↦
          rw
            (
              get-insert p.counters device other amount,
              if_neg (device_number_key.same other device) ne,
            )
            (h.known other e)
    ];
  }

  finish_line-IsParsed :
      (p : ParsedIoStat) (device : DeviceNumber) (l : FieldLoop)
      → contains monitored device ≡ true
      → IsParsed monitored p
      → IsParsed monitored (finish_line p device l)
  unfolding finish_line
  finish_line-IsParsed p device l known h = elim (Option-cases l.wbytes) [
    | inl missing ↦ rw missing (fail_device-IsParsed p device h)
    | inr (amount, found) ↦
        elim (Bool-cases
          (l.failed || (contains p.failed_devices device || is_some (get p.counters device)))) [
            | inl bad ↦ rw (found, bad) (fail_device-IsParsed p device h)
            | inr good ↦
                rw (found, good) (insert-IsParsed p device amount known (ground (arith, good)) h)
          ]
  ]

  read_device_line-IsParsed :
      (p : ParsedIoStat) (fields : List Bytes) (device : Option DeviceNumber)
      → IsParsed monitored p
      → IsParsed monitored (read_device_line monitored p fields device)
  unfolding read_device_line
  read_device_line-IsParsed p fields none h = record { apart = h.apart; known = h.known }
  read_device_line-IsParsed p fields (some device) h =
      elim (Bool-cases (contains monitored device)) [
        | inl known ↦ rw known (finish_line-IsParsed p device _ known h)
        | inr other ↦ rw other h
      ]

  read_line-IsParsed :
      (p : ParsedIoStat) (fields : List Bytes)
      → IsParsed monitored p
      → IsParsed monitored (read_line monitored p fields)
  unfolding read_line
  read_line-IsParsed p [] h = record { apart = h.apart; known = h.known }
  read_line-IsParsed p (first ∷ fields) h =
      read_device_line-IsParsed p fields (parse_device_number first) h

  read_lines-IsParsed :
      (p : ParsedIoStat) (lines : List Bytes)
      → IsParsed monitored p
      → IsParsed monitored (read_lines monitored p lines)
  unfolding read_lines
  read_lines-IsParsed p [] h = h
  read_lines-IsParsed p (line ∷ lines) h =
      read_lines-IsParsed (read_line monitored p (fields_of line)) lines
        (read_line-IsParsed p (fields_of line) h)

-- Whatever the text: a device that failed has no counter, and only monitored devices have one.
pub parse_io_stat-IsParsed :
    (input : Bytes) (monitored : List DeviceNumber)
    → IsParsed monitored (parse_io_stat input monitored)
unfolding parse_io_stat get contains
parse_io_stat-IsParsed input monitored =
    read_lines-IsParsed monitored _ (lines_of input)
      (record { apart = λ device e. refl; known = λ device e. refl })
