-- ===== src/Transmit/Overflow.antt =====
-- The buffer of info_transmit of src/iyelld/info.c.
use iyell.Base.{
  ℕ, zero, suc, ◌+◌, ◌*◌, ◌/◌, ◌%◌, ◌≤◌, fault, out_of_bounds, [], ◌∷◌, ◌++◌, some, ◌≡◌, arith,
  length, length-append,
}
use iyell.CString.{Bytes, codes}
use iyell.Daemon.{Daemon}
use iyell.Number.{decimal, decimal_onto, print_long}
use iyell.Transmit.{parse_bot, transmit_text, transmit_len, sprintf_into, info_transmit, time_long}

abbrev pub pow10 : ℕ → ℕ
pow10 zero = 1
pow10 (suc k) = 10 * pow10 k

decimal_onto-grows : (f n : ℕ) (acc : Bytes) → length acc + 1 ≤ length (decimal_onto f n acc)
unfolding decimal_onto
decimal_onto-grows zero n acc = omega arith
decimal_onto-grows (suc f) n acc =
    ground (arith, decimal_onto-grows f (n / 10) ((b'0' + n % 10) ∷ acc))

pow10-pos : (k : ℕ) → 1 ≤ pow10 k
pow10-pos zero = omega arith
pow10-pos (suc k) = omega (arith, pow10-pos k)

length-decimal_onto :
    (k f n : ℕ) (acc : Bytes)
    → n ≤ f
    → pow10 k ≤ n
    → length acc + k + 1 ≤ length (decimal_onto f n acc)
unfolding decimal_onto
length-decimal_onto zero f n acc h e = omega (arith, decimal_onto-grows f n acc)
length-decimal_onto (suc k) zero n acc h e = omega (arith, pow10-pos k)
length-decimal_onto (suc k) (suc f) n acc h e =
    let positive = pow10-pos k in
    let small : n / 10 ≤ f = omega arith in
    let rest = length-decimal_onto k f (n / 10) ((b'0' + n % 10) ∷ acc) small (omega arith) in
    ground (arith, rest)

length-transmit_text :
    (t : ℕ) (type message : Bytes)
    → length (transmit_text (some t) type message)
      ≡ length (decimal t) + length type + length message + 3
unfolding transmit_text time_long print_long
length-transmit_text t type message = ground (
  arith,
  length-append (decimal t) (codes ":" ++ (type ++ (codes ":" ++ (message ++ codes "\n")))),
  length-append type (codes ":" ++ (message ++ codes "\n")),
  length-append message (codes "\n"),
)

module _ {B : Type 0} where
  -- From the hundred-millionth second of the epoch on, that is since 1973, the text of a
  -- transmission does not fit in the array it is printed into, whatever the message is.
  pub info_transmit-overflows :
      (bot host port type message : Bytes) (t : ℕ) (d : Daemon B)
      → parse_bot bot ≡ some (host, port)
      → d.env.time ≡ some t
      → pow10 8 ≤ t
      → info_transmit bot type message d ≡ fault out_of_bounds
  unfolding info_transmit sprintf_into transmit_len decimal
  info_transmit-overflows bot host port type message t d parsed clock late =
      let text : length (transmit_text d.env.time type message)
          ≡ length (decimal t) + length type + length message + 3 =
        rw clock (length-transmit_text t type message) in
      let digits = length-decimal_onto 8 t t [] (omega arith) late in
      ground (arith, parsed, text, digits)
