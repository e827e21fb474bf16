-- ===== src/Number.antt =====
-- Numbers as text: `%ld` and `%hu` of printf, and `strtol` in base ten, of the C library.
pub mod RoundTrip
use Prim.Native.Nat.{◌^◌}
use iyell.Base.{
  ℕ, zero, suc, ◌+◌, ◌-◌, ◌*◌, ◌/◌, ◌%◌, Bool, true, false, ◌&&◌, ◌||◌, List, [], ◌∷◌, ltb, leb,
  ◌==◌, if◌then◌else◌,
}
use iyell.Base.Int.{ℤ, pos, negsuc}
use iyell.CString.{Bytes, codes, is_digit}

-- The digits of `n` in front of `acc`; the fuel `n` is enough.
unfoldable pub decimal_onto : ℕ → ℕ → Bytes → Bytes
decimal_onto zero n acc = (b'0' + n % 10) ∷ acc
decimal_onto (suc f) n acc =
    let rest = decimal_onto f (n / 10) ((b'0' + n % 10) ∷ acc) in
    if ltb n 10 then (b'0' + n) ∷ acc else rest

unfoldable pub decimal : ℕ → Bytes
unfolding decimal_onto
decimal n = decimal_onto n n []

unfoldable pub print_long : ℤ → Bytes
unfolding decimal
print_long (pos n) = decimal n
print_long (negsuc n) = b'-' ∷ decimal (suc n)

-- `isspace`
unfoldable pub is_space : ℕ → Bool
is_space c = c == b' ' || leb 9 c && leb c 13

unfoldable pub skip_space : Bytes → Bytes
unfolding is_space
skip_space [] = []
skip_space (c ∷ s) = let r = skip_space s in if is_space c then r else c ∷ s

-- The value of the digits in front, and what follows them.
unfoldable pub scan_digits : ℕ → Bytes → ℕ × Bytes
unfolding is_digit
scan_digits acc [] = (acc, [])
scan_digits acc (c ∷ s) =
    let r = scan_digits (acc * 10 + (c - b'0')) s in if is_digit c then r else (acc, c ∷ s)

abbrev pub long_max : ℕ
long_max = 2 ^ 63 - 1

-- Out of range, `strtol` answers the nearest `long`.
unfoldable pub clamp_long : Bool → ℕ → ℤ
clamp_long false n = if ltb long_max n then pos long_max else pos n
clamp_long true zero = pos 0
clamp_long true (suc n) = if ltb long_max n then negsuc long_max else negsuc n

unfoldable pub strtol_sign : Bytes → Bool × Bytes
strtol_sign [] = (false, [])
strtol_sign (c ∷ s) =
    if c == b'-' then (true, s) else if c == b'+' then (false, s) else (false, c ∷ s)

-- `strtol(s, NULL, 10)`
unfoldable pub strtol : Bytes → ℤ
unfolding skip_space strtol_sign scan_digits clamp_long
strtol s = let (negative, t) = strtol_sign (skip_space s) in clamp_long negative (scan_digits 0 t).0
