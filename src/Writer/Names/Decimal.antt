-- ===== src/Writer/Names/Decimal.antt =====
-- A printed u32 is read back by `parse`, and holds neither a colon nor a control character.
use native.Mathlib.Nat.{pow-suc, div-lt_iff_lt-mul}
use nvme_disk_mon.Common.{
  ℕ, zero, suc, ◌+◌, ◌-◌, ◌*◌, ◌/◌, ◌%◌, ◌^◌, ◌<◌, ◌≡◌, refl, Bool, true, false, ◌&&◌, ◌||◌, [],
  ◌∷◌, ◌++◌, some, Bytes, bytes_key, ltb, is_empty, any, all, split_once, is_ascii_control,
  is_ascii_digit, parse_unsigned, parse_digits, Bool-cases, inl, inr, arith,
}
use nvme_disk_mon.Common.Int.{u32_end}
use nvme_disk_mon.Writer.Names.{decimal, print_u32}

-- No control character stands in the text.
abbrev pub Printable : Bytes → Type 0
Printable s = any is_ascii_control s ≡ false

pub any-append : (p : ℕ → Bool) (s t : Bytes) → any p (s ++ t) ≡ any p s || any p t
any-append p [] t = refl
any-append p (c ∷ s) t = ground (arith, any-append p s t)

pub decimal-Printable : (k n : ℕ) → Printable (decimal k n)
unfolding decimal is_ascii_control
decimal-Printable zero n = refl
decimal-Printable (suc k) n = ground (
  arith,
  decimal-Printable k (n / 10),
  any-append is_ascii_control (decimal k (n / 10)) ((b'0' + n % 10) ∷ []),
)

all-append : (p : ℕ → Bool) (s t : Bytes) → all p (s ++ t) ≡ all p s && all p t
all-append p [] t = refl
all-append p (c ∷ s) t = ground (arith, all-append p s t)

pub decimal-digits : (k n : ℕ) → all is_ascii_digit (decimal k n) ≡ true
unfolding decimal is_ascii_digit
decimal-digits zero n = refl
decimal-digits (suc k) n = ground (
  arith,
  decimal-digits k (n / 10),
  all-append is_ascii_digit (decimal k (n / 10)) ((b'0' + n % 10) ∷ []),
)

pub split_once-digits :
    (s t : Bytes) → all is_ascii_digit s ≡ true → split_once b':' (s ++ b':' ∷ t) ≡ some (s, t)
unfolding split_once is_ascii_digit
split_once-digits [] t h = refl
split_once-digits (c ∷ s) t h = ground (arith, h, split_once-digits s t)

parse_digits-bound : (end n m : ℕ) (s : Bytes) → n < end → parse_digits end n s ≡ some m → m < end
unfolding parse_digits
parse_digits-bound end n m [] h e = ground (arith, e)
parse_digits-bound end n m (c ∷ s) h e =
    ground (arith, e, parse_digits-bound end (n * 10 + (c - b'0')) m s)

parse_digits-append_last :
    (end n m c : ℕ) (s : Bytes)
    → parse_digits end n s ≡ some m
    → parse_digits end n (s ++ c ∷ []) ≡ parse_digits end m (c ∷ [])
unfolding parse_digits
parse_digits-append_last end n m c [] e = ground (arith, e)
parse_digits-append_last end n m c (d ∷ s) e =
    ground (arith, e, parse_digits-append_last end (n * 10 + (d - b'0')) m c s)

parse_digits-decimal :
    (end k n : ℕ) → n < 10 ^ k → n < end → parse_digits end 0 (decimal k n) ≡ some n
unfolding decimal parse_digits is_ascii_digit
parse_digits-decimal end zero n h e = ground (arith, h)
parse_digits-decimal end (suc k) n h e = elim (Bool-cases (ltb n 10)) [
  | inl small ↦ ground (arith, small)
  | inr large ↦
      let ih =
        parse_digits-decimal end k (n / 10) ((div-lt_iff_lt-mul (omega arith)).1 (rw pow-suc at h))
          (omega arith) in
      ground (
        arith,
        large,
        parse_digits-append_last end 0 (n / 10) (b'0' + n % 10) (decimal k (n / 10)) ih,
      )
]

-- What is read as digits is read as a number.
parse_unsigned-digits :
    (end n : ℕ) (s : Bytes)
    → is_empty s ≡ false
    → parse_digits end 0 s ≡ some n
    → parse_unsigned end s ≡ some n
unfolding parse_unsigned parse_digits is_ascii_digit
parse_unsigned-digits end n [] h e = ground (arith, h)
parse_unsigned-digits end n (c ∷ []) h e = e
parse_unsigned-digits end n (c ∷ d ∷ s) h e = ground (arith, e)

pub parse_unsigned-bound :
    (end n : ℕ) (s : Bytes) → 0 < end → parse_unsigned end s ≡ some n → n < end
unfolding parse_unsigned
parse_unsigned-bound end n [] h e = ground (arith, e)
parse_unsigned-bound end n (c ∷ []) h e = parse_digits-bound end 0 n (c ∷ []) h e
parse_unsigned-bound end n (c ∷ d ∷ s) h e =
    ground
      (arith, e, parse_digits-bound end 0 n (d ∷ s) h, parse_digits-bound end 0 n (c ∷ d ∷ s) h)

decimal-not_empty : (k n : ℕ) → is_empty (decimal (suc k) n) ≡ false
unfolding decimal
decimal-not_empty k n = elim (Bool-cases (ltb n 10)) [
  | inl small ↦ rw small refl
  | inr large ↦ rw large (not_empty (decimal k (n / 10)) _)
]
  where
    not_empty : (s : Bytes) (c : ℕ) → is_empty (s ++ c ∷ []) ≡ false
    not_empty [] c = refl
    not_empty (d ∷ s) c = refl

pub parse_unsigned-print_u32 : (n : ℕ) → n < u32_end → parse_unsigned u32_end (print_u32 n) ≡ some n
unfolding print_u32
parse_unsigned-print_u32 n h =
    parse_unsigned-digits u32_end n (decimal 10 n) (decimal-not_empty 9 n)
      (parse_digits-decimal u32_end 10 n (omega (arith, h)) h)
