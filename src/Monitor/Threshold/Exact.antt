-- ===== src/Monitor/Threshold/Exact.antt =====
-- The threshold test is exact: it compares an integer with the real number that the f64 stands for.
use native.Mathlib.Nat.{
  pow-zero, pow-suc, mul-lt-mul_of_pos_right, lt_of_mul-lt-mul_right, mul_assoc, pow-le-pow_right,
  div-lt_iff_lt-mul, div-eq_of_lt,
}
use nvme_disk_mon.Common.{
  ℕ, zero, suc, ◌+◌, ◌-◌, ◌*◌, ◌/◌, ◌^◌, ◌≤◌, ◌<◌, ◌≡◌, ◌↔◌, true, false, arith, Bool-cases, inl,
  inr, ap, sym, ◌∙◌, ◌==◌, leb, dec_le, ltb→lt, lt→ltb, if◌then◌else◌,
}
use nvme_disk_mon.Common.Int.{ℤ, pos, negsuc, pos_part, neg_part, in_i64, i64_end}
use nvme_disk_mon.Monitor.Threshold.{
  encoded_exponent, fraction, is_finite, is_below_zero, shifted, gib_floor_bytes, exceeds_floor,
  bytes_strictly_exceed_gib,
}

pow_add : (m n : ℕ) → 2 ^ (m + n) ≡ 2 ^ m * 2 ^ n
pow_add m zero = let e : m + zero ≡ m = omega arith in rw (e, pow-zero) (omega arith)
pow_add m (suc n) =
    let e : m + suc n ≡ suc (m + n) = omega arith in
    rw (e, pow-suc, pow_add m n, pow-suc) (omega arith)

pow_pos : (n : ℕ) → 0 < 2 ^ n
pow_pos zero = rw pow-zero (omega arith)
pow_pos (suc n) = rw pow-suc (omega (arith, pow_pos n))

-- A common factor does not matter.
scale : (a w q : ℕ) → 0 < q → (a < w) ↔ (a * q < w * q)
scale a w q h = (λ lt. mul-lt-mul_of_pos_right lt h, λ lt. lt_of_mul-lt-mul_right q lt)

-- A shift to the left, by less than 12.
left-lt : (sig w e : ℕ) → 1045 ≤ e → (sig * 2 ^ (e - 1045) < w) ↔ (sig * 2 ^ (e - 1) < w * 2 ^ 1044)
left-lt sig w e h =
    let split : e - 1 ≡ (e - 1045) + 1044 = omega arith in
    let both = scale (sig * 2 ^ (e - 1045)) w (2 ^ 1044) (omega arith) in
    rw (split, pow_add, ← mul_assoc) both

grown : (n p : ℕ) → 0 < p → n ≤ n * p
grown n p h = grind arith

leb-true : {a b : ℕ} → a ≤ b → leb a b ≡ true
leb-true h = ground arith

leb-false : {a b : ℕ} → b < a → leb a b ≡ false
leb-false h = ground arith

far12 : {e : ℕ} → 1057 ≤ e → 12 ≤ e - 1045
far12 h = omega arith

-- From 2 ^ 64 on no i64 is above.
far-lt : (sig w e : ℕ) → 2 ^ 52 ≤ sig → w < 2 ^ 63 → 1057 ≤ e → ¬ (sig * 2 ^ (e - 1) < w * 2 ^ 1044)
far-lt sig w e s h k lt =
    let split : e - 1 ≡ (e - 1057) + 1056 = omega arith in
    let lt' : sig * (2 ^ (e - 1057) * 2 ^ 1056) < w * 2 ^ 1044 =
      rw (← pow_add (e - 1057) 1056, ← split) lt in
    omega (arith, lt', grown sig (2 ^ (e - 1057)) (pow_pos (e - 1057)))

-- A shift to the right: `b * a` is the common scale.
floor-lt : (sig w a b q : ℕ) → 0 < a → 0 < b → q ≡ b * a → (sig / b < w) ↔ (sig * a < w * q)
floor-lt sig w a b q ha hb e =
    let floor = div-lt_iff_lt-mul {k = b} {x = sig} {y = w} hb in
    let both = scale sig (w * b) a ha in
    rw (e, ← mul_assoc) (λ lt. both.0 (floor.0 lt), λ lt. floor.1 (both.1 lt))

right-lt :
    (sig w e : ℕ)
    → 1 ≤ e
    → e < 1045
    → (sig / 2 ^ (1045 - e) < w) ↔ (sig * 2 ^ (e - 1) < w * 2 ^ 1044)
right-lt sig w e one h =
    let split : (1045 - e) + (e - 1) ≡ 1044 = omega arith in
    floor-lt sig w (2 ^ (e - 1)) (2 ^ (1045 - e)) (2 ^ 1044) (pow_pos (e - 1)) (pow_pos (1045 - e))
      (ap (λ k. 2 ^ k) (sym split) ∙ pow_add (1045 - e) (e - 1))

-- A significand shifted by 128 or more is 0.
gone : (sig k : ℕ) → sig < 2 ^ 53 → 128 ≤ k → sig / 2 ^ k ≡ 0
gone sig k h far =
    let grows : 2 ^ 128 ≤ 2 ^ k = pow-le-pow_right (omega arith) far in
    div-eq_of_lt (omega (arith, grows))

shifted-lt :
    (sig w e : ℕ)
    → 2 ^ 52 ≤ sig
    → sig < 2 ^ 53
    → w < 2 ^ 63
    → 1 ≤ e
    → (shifted sig e < w) ↔ (sig * 2 ^ (e - 1) < w * 2 ^ 1044)
unfolding shifted
shifted-lt sig w e lo hi h one = elim (dec_le 1045 e) [
  | yes left ↦ elim (dec_le 1057 e) [
    | yes far ↦
        rw (leb-true left, leb-true (far12 far))
          (λ lt. absurd (omega arith), λ lt. absurd (far-lt sig w e lo h far lt))
    | no near ↦
        rw (leb-true left, leb-false {a = 12} {b = e - 1045} (omega arith)) (left-lt sig w e left)
  ]
  | no right ↦ elim (dec_le 128 (1045 - e)) [
    | yes far ↦ rw (leb-false {a = 1045} {b = e} (omega arith), leb-true far) (vanished far)
    | no near ↦
        rw
          (
            leb-false {a = 1045} {b = e} (omega arith),
            leb-false {a = 128} {b = 1045 - e} (omega arith),
          )
          (right-lt sig w e one (omega arith))
  ]
]
  where
    vanished : 128 ≤ 1045 - e → (0 < w) ↔ (sig * 2 ^ (e - 1) < w * 2 ^ 1044)
    vanished far =
        let both = right-lt sig w e one (omega arith) in
        (
          λ lt. both.0 (rw (gone sig (1045 - e) hi far) lt),
          λ lt. rw (gone sig (1045 - e) hi far) at (both.1 lt),
        )

nonzero : (n : ℕ) → (n == 0) ≡ false → 1 ≤ n
nonzero n h = ground arith

-- 2 ^ 1044 times the threshold in bytes: an f64 is a multiple of 2 ^ -1074, and a GiB is 2 ^ 30 bytes.
abbrev pub scaled_threshold : ℕ → ℕ
scaled_threshold bits =
    if encoded_exponent bits == 0
    then fraction bits
    else (2 ^ 52 + fraction bits) * 2 ^ (encoded_exponent bits - 1)

exact_from_zero :
    (amount bits : ℕ)
    → amount < i64_end
    → is_finite bits ≡ true
    → is_below_zero bits ≡ false
    → (bytes_strictly_exceed_gib (pos amount) bits ≡ true)
      ↔ (scaled_threshold bits < amount * 2 ^ 1044)
unfolding bytes_strictly_exceed_gib gib_floor_bytes exceeds_floor
exact_from_zero amount bits h finite above = elim (Bool-cases (encoded_exponent bits == 0)) [
  | inl zero_exponent ↦
      rw (finite, above, zero_exponent)
        (
          λ t. let up : 0 < amount = ltb→lt 0 amount t in omega arith,
          λ lt. lt→ltb 0 amount (omega arith),
        )
  | inr normal ↦
      rw (finite, above, normal)
        (let both =
            shifted-lt (2 ^ 52 + fraction bits) amount (encoded_exponent bits) (omega arith)
              (omega arith) h (nonzero (encoded_exponent bits) normal) in
          (λ t. both.0 (ltb→lt _ amount t), λ lt. lt→ltb _ amount (both.1 lt)))
]

-- For a finite threshold from 0 on and every i64 amount, those below 0 included, the test says
-- whether the amount is above the real number of bytes that the threshold stands for (both sides
-- times 2 ^ 1044, the part of the amount below 0 on the other side).
pub bytes_strictly_exceed_gib-exact :
    (amount : ℤ) (bits : ℕ)
    → in_i64 amount ≡ true
    → is_finite bits ≡ true
    → is_below_zero bits ≡ false
    → (bytes_strictly_exceed_gib amount bits ≡ true)
      ↔ (scaled_threshold bits + neg_part amount * 2 ^ 1044 < pos_part amount * 2 ^ 1044)
unfolding bytes_strictly_exceed_gib
bytes_strictly_exceed_gib-exact (pos n) bits h finite above =
    let (there, back) = exact_from_zero n bits (ltb→lt n i64_end h) finite above in
    (λ t. omega (arith, there t), λ lt. back (omega arith))
bytes_strictly_exceed_gib-exact (negsuc n) bits h finite above =
    (λ t. ground arith, λ lt. absurd (omega arith))
