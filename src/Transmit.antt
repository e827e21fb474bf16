-- ===== src/Transmit.antt =====
-- src/iyelld/info.c, to other bots: `info_transmit` and what it calls.
pub mod Overflow
use iyell.Base.{
  ℕ, suc, ◌+◌, Bool, true, false, not, ◌||◌, Run, ok, fault, null_pointer, out_of_bounds, ◌>>=◌,
  List, [], ◌∷◌, ◌++◌, Option, none, some, ◌==◌, ltb, if◌then◌else◌, length, take,
}
use iyell.Base.Int.{ℤ, pos, negsuc}
use iyell.CString.{Bytes, codes}
use iyell.Conf.{hash_text_get_first}
use iyell.Daemon.{Daemon, Env}
use iyell.Irc.{deref}
use iyell.Number.{print_long, is_space, skip_space}

-- A scanset that excludes bytes, `%[^…]`: what it takes, and the rest.
unfoldable pub scan_until : (ℕ → Bool) → Bytes → Bytes × Bytes
scan_until stop [] = ([], [])
scan_until stop (c ∷ s) =
    let r = scan_until stop s in if stop c then ([], c ∷ s) else (c ∷ r.0, r.1)

-- A conversion that takes no byte fails.
unfoldable pub some_bytes : Bytes × Bytes → Option (Bytes × Bytes)
some_bytes ([], s) = none
some_bytes (c ∷ t, s) = some (c ∷ t, s)

-- A literal byte of the format.
unfoldable pub expect : ℕ → Bytes → Option Bytes
expect c [] = none
expect c (x ∷ s) = if x == c then some s else none

infixl 5 ◌>>?◌
abbrev ◌>>?◌ : {A B : Type 0} → Option A → (A → Option B) → Option B
none >>? f = none
some a >>? f = f a

-- `sscanf(bot, "[%[^]] %*[^':']:%s", host, port)`, if both are assigned
unfoldable pub parse_bot : Bytes → Option (Bytes × Bytes)
unfolding expect some_bytes scan_until skip_space is_space
parse_bot bot = expect b'[' bot >>? λ s. some_bytes (scan_until (λ c. c == b']') s) >>? λ host.
    some_bytes (scan_until (λ c. c == 0x27 || c == b':') (skip_space host.1)) >>? λ skipped.
    expect b':' skipped.1 >>? λ t.
    some_bytes (scan_until is_space (skip_space t)) >>? λ port. some (host.0, port.0)

-- `sizeof(time_t)` on the 64-bit systems
abbrev pub sizeof_time_t : ℕ
sizeof_time_t = 8

-- `(long)time(NULL)`
unfoldable pub time_long : Option ℕ → ℤ
time_long none = negsuc 0
time_long (some t) = pos t

-- `"%ld:%s:%s\n"`
unfoldable pub transmit_text : Option ℕ → Bytes → Bytes → Bytes
unfolding time_long
transmit_text now type message =
    print_long (time_long now) ++ (codes ":" ++ (type ++ (codes ":" ++ (message ++ codes "\n"))))

unfoldable pub transmit_len : Bytes → Bytes → ℕ
transmit_len type message = sizeof_time_t + 1 + length type + 1 + length message + 1

-- `sprintf` into an array: the text and a zero byte have to fit.
unfoldable pub sprintf_into : ℕ → Bytes → Run Bytes
sprintf_into size text = if ltb size (length text + 1) then fault out_of_bounds else ok text

module _ {B : Type 0} where
  -- The socket is opened, the first `len` bytes are sent, and it is closed.
  send_to : Bytes → Bytes → Bytes → Daemon B → Daemon B
  send_to host port payload d =
      if d.env.net_create_udp_socket host port
      then record d {
        transmitted =
            d.transmitted ++ (record { host = host; port = port; payload = payload } ∷ []);
      }
      else d

  -- The bytes of `msg` behind the text are not set: what is sent has `len` bytes of the array, and
  -- the model sends those of the text that are among them.
  unfoldable pub info_transmit : Bytes → Bytes → Bytes → Daemon B → Run (Daemon B)
  unfolding send_to sprintf_into transmit_len transmit_text deref
  info_transmit bot type message d = elim (parse_bot bot) [
    | none ↦ ok d
    | some (host, port) ↦ do
      text ← sprintf_into (transmit_len type message + 1) (transmit_text d.env.time type message)
      key ← deref (hash_text_get_first d.conf.global (codes "udp_key"))
      ok (send_to host port (d.env.rc4 key (take (transmit_len type message) text)) d)
  ]
