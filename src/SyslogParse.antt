-- ===== src/SyslogParse.antt =====
-- src/iyelld/rfc3164.c, `sl_parse`: a syslog packet is taken apart by `sscanf`.
pub mod Short
use Prim.Native.Nat.{◌^◌, min}
use iyell.Base.{
  ℕ, zero, suc, ◌+◌, ◌-◌, ◌%◌, Bool, true, false, not, ◌||◌, ◌&&◌, Run, ok, fault, assertion,
  out_of_bounds, ◌>>=◌, List, [], ◌∷◌, Option, none, some, ◌==◌, ltb, if◌then◌else◌, length, take,
}
use iyell.CString.{Bytes, codes, has_prefix, is_digit}
use iyell.Conf.{Conf, hash_text_is_true}
use iyell.Daemon.{Daemon}
use iyell.Event.{EvBuffer}
use iyell.Info.{drain_all}
use iyell.Number.{is_space, skip_space, scan_digits, strtol_sign}
use iyell.Syslog.{sl_forward, sl_forward_with_host, rfc3164_max}
use iyell.Transmit.{scan_until, some_bytes, expect}

infixl 5 ◌>>?◌
abbrev ◌>>?◌ : {A B : Type 0} → Option A → (A → Option B) → Option B
none >>? f = none
some a >>? f = f a

-- `%hu`: the number is read as an `unsigned long` and cut to 16 bits.
unfoldable pub to_ushort : Bool → ℕ → ℕ
to_ushort false n = min n (2 ^ 64 - 1) % 2 ^ 16
to_ushort true n = (if ltb n (2 ^ 64) then 2 ^ 64 - n else 2 ^ 64 - 1) % 2 ^ 16

unfoldable pub starts_with_digit : Bytes → Bool
starts_with_digit [] = false
starts_with_digit (c ∷ s) = is_digit c

unfoldable pub scan_hu : Bytes → Option (ℕ × Bytes)
unfolding to_ushort starts_with_digit strtol_sign skip_space is_space scan_digits is_digit
scan_hu s =
    let t = strtol_sign (skip_space s) in
    let r = scan_digits 0 t.1 in
    if starts_with_digit t.1 then some (to_ushort t.0 r.0, r.1) else none

-- `%n[^…]` with a width
unfoldable pub scan_width : ℕ → (ℕ → Bool) → Bytes → Bytes × Bytes
scan_width zero stop s = ([], s)
scan_width (suc n) stop [] = ([], [])
scan_width (suc n) stop (c ∷ s) =
    let r = scan_width n stop s in if stop c then ([], c ∷ s) else (c ∷ r.0, r.1)

-- `<%hu>`
unfoldable pub scan_pri : Bytes → Option (ℕ × Bytes)
unfolding scan_hu expect
scan_pri line = expect b'<' line >>? λ s. scan_hu s >>? λ p. expect b'>' p.1 >>? λ t. some (p.0, t)

-- `%32[^:]: %1024[^\n]`, the end of each format
unfoldable pub scan_tag_msg : Bytes → Option (Bytes × Bytes)
unfolding some_bytes scan_width expect skip_space is_space
scan_tag_msg s = some_bytes (scan_width 32 (λ c. c == b':') s) >>? λ tag. expect b':' tag.1 >>? λ t.
    some_bytes (scan_width rfc3164_max (λ c. c == b'\n') (skip_space t)) >>? λ msg.
    some (tag.0, msg.0)

-- `%*s %*[0-9] %*[0-9:] `, the date
unfoldable pub scan_date : Bytes → Option Bytes
unfolding some_bytes scan_until skip_space is_space is_digit
scan_date s = some_bytes (scan_until is_space (skip_space s)) >>? λ month.
    some_bytes (scan_until (λ c. not (is_digit c)) (skip_space month.1)) >>? λ day.
    some_bytes (scan_until (λ c. not (is_digit c || c == b':')) (skip_space day.1)) >>? λ time.
    some (skip_space time.1)

-- `%[^ :]`, which has no width: the host is written into an array of `RFC3164_MAX + 1` bytes.
unfoldable pub scan_host : Bytes → Option (Bytes × Bytes)
unfolding some_bytes scan_until
scan_host s = some_bytes (scan_until (λ c. c == b' ' || c == b':') s)

-- `RFC3164_SCANF_SHORT`
unfoldable pub scan_short : Bytes → Option (ℕ × Bytes × Bytes)
unfolding scan_pri scan_tag_msg
scan_short line = scan_pri line >>? λ p. scan_tag_msg p.1 >>? λ m. some (p.0, m.0, m.1)

-- `RFC3164_SCANF_DATE`
unfoldable pub scan_with_date : Bytes → Option (ℕ × Bytes × Bytes)
unfolding scan_pri scan_date scan_tag_msg
scan_with_date line =
    scan_pri line >>? λ p. scan_date p.1 >>? λ s. scan_tag_msg s >>? λ m. some (p.0, m.0, m.1)

after_host : ℕ → Option (Bytes × Bytes) → Run (Option (ℕ × Bytes × Bytes × Bytes))
unfolding scan_tag_msg
after_host pri none = ok none
after_host pri (some (host, s)) =
    if ltb rfc3164_max (length host)
    then fault out_of_bounds
    else ok (scan_tag_msg (skip_space s) >>? λ m. some (pri, host, m.0, m.1))

-- `RFC3164_SCANF_HEADER`: the priority, the host, the tag and the message
unfoldable pub scan_header : Bytes → Run (Option (ℕ × Bytes × Bytes × Bytes))
unfolding scan_pri scan_date scan_host after_host
scan_header line = elim (scan_pri line) [
  | none ↦ ok none
  | some (pri, s) ↦ elim (scan_date s) [ none ↦ ok none | some t ↦ after_host pri (scan_host t) ]
]

-- The search of `>` in the first five bytes: the end of the line, no header, or what follows.
pub data Header : Type 0 where
  line_end absent : Header
  header : Bytes → Header

unfoldable pub find_header : ℕ → Bytes → Header
find_header n [] = line_end
find_header zero (c ∷ s) = absent
find_header (suc n) (c ∷ s) = let rest = find_header n s in if c == b'>' then header s else rest

abbrev pub months : List Bytes
months =
    codes "Jan"
    ∷ codes "Feb"
    ∷ codes "Mar"
    ∷ codes "Apr"
    ∷ codes "May"
    ∷ codes "Jun"
    ∷ codes "Jul"
    ∷ codes "Aug"
    ∷ codes "Sep"
    ∷ codes "Oct"
    ∷ codes "Nov"
    ∷ codes "Dec"
    ∷ []

unfoldable pub starts_with_month : List Bytes → Bytes → Bool
unfolding has_prefix
starts_with_month [] s = false
starts_with_month (m ∷ ms) s = has_prefix m s || starts_with_month ms s

-- The bytes before the first zero.
unfoldable pub c_string : Bytes → Bytes
c_string s = (scan_until (λ c. c == 0) s).0

-- A newline at the end of the packet is dropped.
unfoldable pub chop : Bytes → Bytes
chop [] = []
chop (c ∷ []) = if c == b'\n' then [] else c ∷ []
chop (c ∷ d ∷ s) = c ∷ chop (d ∷ s)

module _ {B : Type 0} ⦃ev : EvBuffer B⦄ where
  open ev use {evbuffer_data}

  unfoldable pub forward_short : Option (ℕ × Bytes × Bytes) → Daemon B → Run (Daemon B)
  forward_short none d = ok d
  forward_short (some (pri, tag, msg)) d = sl_forward pri tag msg d

  forward_header : Bytes → Option (ℕ × Bytes × Bytes × Bytes) → Daemon B → Run (Daemon B)
  unfolding forward_short scan_with_date
  forward_header line none d = forward_short (scan_with_date line) d
  forward_header line (some (pri, host, tag, msg)) d =
      if hash_text_is_true d.conf.global (codes "syslog_show_host")
      then sl_forward_with_host pri tag msg host d
      else sl_forward pri tag msg d

  unfoldable pub on_header : Bytes → Header → Daemon B → Run (Daemon B)
  unfolding forward_header forward_short scan_short scan_header starts_with_month
  on_header line line_end d = ok d
  on_header line absent d = forward_short (scan_short line) d
  on_header line (header []) d = ok d
  on_header line (header (c ∷ s)) d =
      if starts_with_month months (c ∷ s)
      then (scan_header line >>= λ r. forward_header line r d)
      else forward_short (scan_short line) d

  -- One line of a packet, once it is a C string.
  unfoldable pub sl_line : Bytes → Daemon B → Run (Daemon B)
  unfolding on_header find_header
  sl_line line d = on_header line (find_header 5 line) d

  on_data : Bytes → Daemon B → B → Run (Daemon B × B)
  unfolding sl_line c_string chop scan_until
  on_data [] d b = fault assertion
  on_data (c ∷ s) d b = do d' ← sl_line (c_string (chop (c ∷ s))) d; ok (d', drain_all b)

  unfoldable pub sl_parse : Daemon B → B → Run (Daemon B × B)
  unfolding on_data
  sl_parse d b = if not d.mode.connected then ok (d, drain_all b) else on_data (evbuffer_data b) d b
