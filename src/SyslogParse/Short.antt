-- ===== src/SyslogParse/Short.antt =====
-- A packet without date and host, `<pri>tag: message`, in `sl_parse` of src/iyelld/rfc3164.c.
use Prim.Native.Nat.{◌^◌}
use iyell.Base.{
  ℕ, zero, suc, ◌+◌, ◌-◌, ◌*◌, ◌%◌, ◌≤◌, ◌<◌, Bool, true, false, [], ◌∷◌, ◌++◌, some, ◌≡◌, inl, inr,
  ◌/◌, refl, ◌∙◌, ap, arith, ◌==◌, ltb, length, All, Bool-cases,
}
use iyell.CString.{Bytes, codes, is_digit, contains}
use iyell.CString.Split.{Free}
use iyell.Daemon.{Daemon}
use iyell.Event.{EvBuffer}
use iyell.Number.{decimal, decimal_onto, scan_digits, skip_space, is_space, strtol_sign}
use iyell.Number.RoundTrip.{
  decimal-All, decimal_onto-head, scan-decimal, skip_space-digit, strtol_sign-digit,
}
use iyell.Syslog.{sl_forward, rfc3164_max}
use iyell.SyslogParse.{
  to_ushort, starts_with_digit, scan_hu, scan_width, scan_pri, scan_tag_msg, scan_short, header,
  find_header, months, starts_with_month, sl_line, on_header, forward_short,
}
use iyell.Transmit.{some_bytes, expect}
use iyell.Transmit.Overflow.{pow10}

-- The text of a packet.
abbrev pub packet : ℕ → Bytes → Bytes → Bytes
packet pri tag msg = b'<' ∷ (decimal pri ++ (b'>' ∷ (tag ++ (b':' ∷ b' ' ∷ msg))))

scan_width-All :
    (n : ℕ) (stop : ℕ → Bool) (s : Bytes)
    → All (λ c. stop c ≡ false) s
    → length s ≤ n
    → scan_width n stop s ≡ (s, [])
unfolding scan_width
scan_width-All zero stop [] h few = refl
scan_width-All zero stop (c ∷ s) h few = ground (arith, few)
scan_width-All (suc n) stop [] h few = refl
scan_width-All (suc n) stop (c ∷ s) h few =
    rw (h.0, scan_width-All n stop s h.1 (omega (arith, few)))

scan_width-stop :
    (n : ℕ) (stop : ℕ → Bool) (s : Bytes) (c : ℕ) (rest : Bytes)
    → All (λ c'. stop c' ≡ false) s
    → stop c ≡ true
    → length s ≤ n
    → scan_width n stop (s ++ (c ∷ rest)) ≡ (s, c ∷ rest)
unfolding scan_width
scan_width-stop zero stop [] c rest h hit few = refl
scan_width-stop zero stop (x ∷ s) c rest h hit few = ground (arith, few)
scan_width-stop (suc n) stop [] c rest h hit few = rw hit
scan_width-stop (suc n) stop (x ∷ s) c rest h hit few =
    rw (h.0, scan_width-stop n stop s c rest h.1 hit (omega (arith, few)))

-- Digits, and a text that starts with no digit.
scan_digits-stop :
    (acc : ℕ) (s : Bytes) (c : ℕ) (rest : Bytes)
    → All (λ c'. is_digit c' ≡ true) s
    → is_digit c ≡ false
    → scan_digits acc (s ++ (c ∷ rest)) ≡ ((scan_digits acc s).0, c ∷ rest)
unfolding scan_digits
scan_digits-stop acc [] c rest h hit = rw hit
scan_digits-stop acc (x ∷ s) c rest h hit =
    rw (h.0, scan_digits-stop (acc * 10 + (x - b'0')) s c rest h.1 hit)

scan_hu-digits :
    (s u rest : Bytes) (n : ℕ)
    → skip_space s ≡ u
    → strtol_sign u ≡ (false, u)
    → starts_with_digit u ≡ true
    → scan_digits 0 u ≡ (n, rest)
    → n < 2 ^ 16
    → scan_hu s ≡ some (n, rest)
unfolding scan_hu to_ushort
scan_hu-digits s u rest n solid unsigned digit value small =
    rw (solid, unsigned, digit, value) ground arith

scan_hu-decimal :
    (pri : ℕ) (rest : Bytes)
    → pri < 2 ^ 16
    → scan_hu (decimal pri ++ (b'>' ∷ rest)) ≡ some (pri, b'>' ∷ rest)
unfolding starts_with_digit decimal
scan_hu-decimal pri rest h =
    let (d, t, lt, e) = decimal_onto-head pri pri [] in
    let digits : All (λ c. is_digit c ≡ true) ((b'0' + d) ∷ t) = rw e at (decimal-All pri) in
    let value : (scan_digits 0 ((b'0' + d) ∷ t)).0 ≡ pri =
      ap (λ r. r.0) (rw e at (scan-decimal pri [])) ∙ (unfold scan_digits in refl) in
    let scanned = scan_digits-stop 0 ((b'0' + d) ∷ t) b'>' rest digits (unfold is_digit in refl) in
    let u = (b'0' + d) ∷ (t ++ (b'>' ∷ rest)) in
    rw e (
      scan_hu-digits u u (b'>' ∷ rest) pri (skip_space-digit d (t ++ (b'>' ∷ rest)) lt)
        (strtol_sign-digit d (t ++ (b'>' ∷ rest)) lt) digits.0
        (scanned ∙ ap (λ n. (n, b'>' ∷ rest)) value) h)

scan_pri-decimal :
    (pri : ℕ) (rest : Bytes)
    → pri < 2 ^ 16
    → scan_pri (b'<' ∷ (decimal pri ++ (b'>' ∷ rest))) ≡ some (pri, rest)
unfolding scan_pri expect
scan_pri-decimal pri rest h = rw (scan_hu-decimal pri rest h) refl

Free-All : (d : ℕ) (s : Bytes) → Free (d ∷ []) s → All (λ c. (c == d) ≡ false) s
unfolding contains
Free-All d [] h = tt
Free-All d (c ∷ s) h = (let first = h.0 in ground (arith, first), Free-All d s h.1)

scan_tag_msg-parts :
    (s u v w tag msg : Bytes) (t m : ℕ)
    → scan_width 32 (λ c. c == b':') s ≡ (t ∷ tag, b':' ∷ u)
    → skip_space u ≡ v
    → scan_width rfc3164_max (λ c. c == b'\n') v ≡ (m ∷ msg, w)
    → scan_tag_msg s ≡ some (t ∷ tag, m ∷ msg)
unfolding scan_tag_msg some_bytes expect
scan_tag_msg-parts s u v w tag msg t m one two three = rw (one, two, three) refl

skip_space-message :
    (m : ℕ) (msg : Bytes) → is_space m ≡ false → skip_space (b' ' ∷ m ∷ msg) ≡ m ∷ msg
unfolding skip_space
skip_space-message m msg solid = rw solid refl

scan_tag_msg-colon :
    (t m : ℕ) (tag msg : Bytes)
    → Free (codes ":") (t ∷ tag)
    → length (t ∷ tag) ≤ 32
    → is_space m ≡ false
    → Free (codes "\n") (m ∷ msg)
    → length (m ∷ msg) ≤ rfc3164_max
    → scan_tag_msg ((t ∷ tag) ++ (b':' ∷ b' ' ∷ m ∷ msg)) ≡ some (t ∷ tag, m ∷ msg)
scan_tag_msg-colon t m tag msg free_t few_t solid free_m few_m =
    scan_tag_msg-parts ((t ∷ tag) ++ (b':' ∷ b' ' ∷ m ∷ msg)) (b' ' ∷ m ∷ msg) (m ∷ msg) [] tag msg
      t m
      (scan_width-stop 32 _ (t ∷ tag) b':' (b' ' ∷ m ∷ msg) (Free-All b':' (t ∷ tag) free_t) refl
        few_t)
      (skip_space-message m msg solid)
      (scan_width-All rfc3164_max _ (m ∷ msg) (Free-All b'\n' (m ∷ msg) free_m) few_m)

find_header-digits :
    (n : ℕ) (s rest : Bytes)
    → All (λ c. is_digit c ≡ true) s
    → length s < n
    → find_header n (s ++ (b'>' ∷ rest)) ≡ header rest
unfolding find_header is_digit
find_header-digits zero s rest h few = ground (arith, few)
find_header-digits (suc n) [] rest h few = refl
find_header-digits (suc n) (c ∷ s) rest h few =
    let digit = h.0 in
    let others = find_header-digits n s rest h.1 (omega (arith, few)) in
    ground (arith, digit, others)

length-decimal_onto_le :
    (k f n : ℕ) (acc : Bytes)
    → n ≤ f
    → n < pow10 (suc k)
    → length (decimal_onto f n acc) ≤ length acc + k + 1
unfolding decimal_onto
length-decimal_onto_le k zero n acc h small = omega arith
length-decimal_onto_le zero (suc f) n acc h small = ground (arith, small)
length-decimal_onto_le (suc k) (suc f) n acc h small = elim (Bool-cases (ltb n 10)) [
  | inl one ↦ rw one (omega arith)
  | inr more ↦
      let rest =
        length-decimal_onto_le k f (n / 10) ((b'0' + n % 10) ∷ acc) (ground (arith, more))
          (omega (arith, small)) in
      rw more (omega (arith, rest))
]

find_header-packet :
    (pri : ℕ) (rest : Bytes)
    → pri < 1000
    → find_header 5 (b'<' ∷ (decimal pri ++ (b'>' ∷ rest))) ≡ header rest
unfolding find_header decimal
find_header-packet pri rest small =
    find_header-digits 4 (decimal pri) rest (decimal-All pri)
      (omega (arith, length-decimal_onto_le 2 pri pri [] (omega arith) small))

scan_short-parts :
    (line rest : Bytes) (pri : ℕ) (tag msg : Bytes)
    → scan_pri line ≡ some (pri, rest)
    → scan_tag_msg rest ≡ some (tag, msg)
    → scan_short line ≡ some (pri, tag, msg)
unfolding scan_short
scan_short-parts line rest pri tag msg one two = rw (one, two) refl

module _ {B : Type 0} ⦃ev : EvBuffer B⦄ where
  sl_line-short :
      (line : Bytes) (c : ℕ) (s : Bytes) (pri : ℕ) (tag msg : Bytes) (d : Daemon B)
      → find_header 5 line ≡ header (c ∷ s)
      → starts_with_month months (c ∷ s) ≡ false
      → scan_short line ≡ some (pri, tag, msg)
      → sl_line line d ≡ sl_forward pri tag msg d
  unfolding sl_line on_header forward_short
  sl_line-short line c s pri tag msg d found month scanned = rw (found, month, scanned) refl

  -- A packet `<pri>tag: message` is taken apart into the priority, the tag and the message, when the
  -- priority is below 1000, the tag has 1 to 32 bytes and no colon, the message has 1 to 1024 bytes,
  -- no newline and no space in front, and the text behind the priority does not begin with a month.
  pub sl_line-packet :
      (pri t m : ℕ) (tag msg : Bytes) (d : Daemon B)
      → pri < 1000
      → Free (codes ":") (t ∷ tag)
      → length (t ∷ tag) ≤ 32
      → is_space m ≡ false
      → Free (codes "\n") (m ∷ msg)
      → length (m ∷ msg) ≤ rfc3164_max
      → starts_with_month months ((t ∷ tag) ++ (b':' ∷ b' ' ∷ m ∷ msg)) ≡ false
      → sl_line (packet pri (t ∷ tag) (m ∷ msg)) d ≡ sl_forward pri (t ∷ tag) (m ∷ msg) d
  sl_line-packet pri t m tag msg d small free_t few_t solid free_m few_m month =
      let rest = (t ∷ tag) ++ (b':' ∷ b' ' ∷ m ∷ msg) in
      sl_line-short (packet pri (t ∷ tag) (m ∷ msg)) t (tag ++ (b':' ∷ b' ' ∷ m ∷ msg)) pri
        (t ∷ tag) (m ∷ msg) d (find_header-packet pri rest small) month
        (scan_short-parts (packet pri (t ∷ tag) (m ∷ msg)) rest pri (t ∷ tag) (m ∷ msg)
          (scan_pri-decimal pri rest (omega (arith, small)))
          (scan_tag_msg-colon t m tag msg free_t few_t solid free_m few_m))
