-- ===== src/Number/RoundTrip.antt =====
-- Numbers printed and read again, for the timestamps of src/iyelld/info.c.
use iyell.Base.{
  ℕ, zero, suc, ◌+◌, ◌*◌, ◌-◌, ◌/◌, ◌%◌, ◌≤◌, ◌<◌, [], ◌∷◌, ◌≡◌, refl, ap, true, false, arith, ltb,
  Bool-cases, inl, inr, ◌∙◌, All,
}
use iyell.Base.Int.{pos}
use iyell.CString.{Bytes, is_digit}
use iyell.Number.{
  decimal_onto, decimal, is_space, skip_space, scan_digits, long_max, clamp_long, strtol_sign,
  strtol,
}

scan_digit :
    (acc k : ℕ) (s : Bytes)
    → k < 10
    → scan_digits acc ((b'0' + k) ∷ s) ≡ scan_digits (acc * 10 + k) s
unfolding scan_digits
scan_digit acc k s h =
    let digit : is_digit (b'0' + k) ≡ true = unfold is_digit in ground arith in
    let value : b'0' + k - b'0' ≡ k = omega arith in rw (digit, value)

scan-decimal_onto :
    (f n : ℕ) (s : Bytes) → n ≤ f → scan_digits 0 (decimal_onto f n s) ≡ scan_digits n s
unfolding decimal_onto
scan-decimal_onto zero n s h =
    scan_digit 0 (n % 10) s (omega arith) ∙ ap (λ k. scan_digits k s) (omega arith)
scan-decimal_onto (suc f) n s h = elim (Bool-cases (ltb n 10)) [
  | inl small ↦ rw small (scan_digit 0 n s (ground arith) ∙ ap (λ k. scan_digits k s) (omega arith))
  | inr large ↦ rw large (
      scan-decimal_onto f (n / 10) ((b'0' + n % 10) ∷ s) (ground arith)
      ∙ scan_digit (n / 10) (n % 10) s (omega arith)
      ∙ ap (λ k. scan_digits k s) (omega arith))
]

-- The text starts with a digit.
pub decimal_onto-head :
    (f n : ℕ) (s : Bytes) → (d : ℕ) × (t : Bytes) × (d < 10) × (decimal_onto f n s ≡ (b'0' + d) ∷ t)
unfolding decimal_onto
decimal_onto-head zero n s = (n % 10, s, omega arith, refl)
decimal_onto-head (suc f) n s = elim (Bool-cases (ltb n 10)) [
  | inl small ↦ (n, s, ground arith, rw small)
  | inr large ↦
      let (d, t, lt, e) = decimal_onto-head f (n / 10) ((b'0' + n % 10) ∷ s) in
      (d, t, lt, rw large e)
]

-- Every byte of the text is a digit, if what follows is.
decimal_onto-All :
    (f n : ℕ) (s : Bytes)
    → All (λ c. is_digit c ≡ true) s
    → All (λ c. is_digit c ≡ true) (decimal_onto f n s)
unfolding decimal_onto
decimal_onto-All zero n s h = ((unfold is_digit in ground arith), h)
decimal_onto-All (suc f) n s h = elim (Bool-cases (ltb n 10)) [
  | inl small ↦ rw small ((unfold is_digit in ground arith), h)
  | inr large ↦
      rw large
        (decimal_onto-All f (n / 10) ((b'0' + n % 10) ∷ s) ((unfold is_digit in ground arith), h))
]

pub decimal-All : (n : ℕ) → All (λ c. is_digit c ≡ true) (decimal n)
unfolding decimal
decimal-All n = decimal_onto-All n n [] tt

pub scan-decimal : (n : ℕ) (s : Bytes) → scan_digits 0 (decimal_onto n n s) ≡ scan_digits n s
scan-decimal n s = scan-decimal_onto n n s (omega arith)

pub skip_space-digit : (d : ℕ) (t : Bytes) → d < 10 → skip_space ((b'0' + d) ∷ t) ≡ (b'0' + d) ∷ t
unfolding skip_space
skip_space-digit d t h =
    let solid : is_space (b'0' + d) ≡ false = unfold is_space in ground arith in rw solid

pub strtol_sign-digit :
    (d : ℕ) (t : Bytes) → d < 10 → strtol_sign ((b'0' + d) ∷ t) ≡ (false, (b'0' + d) ∷ t)
unfolding strtol_sign
strtol_sign-digit d t h = ground arith

strtol-digit :
    (d : ℕ) (t : Bytes)
    → d < 10
    → strtol ((b'0' + d) ∷ t) ≡ clamp_long false (scan_digits 0 ((b'0' + d) ∷ t)).0
strtol-digit d t h = unfold strtol in rw (skip_space-digit d t h, strtol_sign-digit d t h)

-- A number that fits in a `long` is read back from its text.
pub strtol-decimal : (n : ℕ) → n ≤ long_max → strtol (decimal n) ≡ pos n
unfolding decimal
strtol-decimal n h =
    let (d, t, lt, e) = decimal_onto-head n n [] in
    rw e (
      strtol-digit d t lt
      ∙ ap (λ r. clamp_long false r.0) (rw e at (scan-decimal n []))
      ∙ (unfold clamp_long scan_digits in ground arith))
