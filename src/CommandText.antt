-- ===== src/CommandText.antt =====
-- src/iyelld/cmd.c: the commands that print numbers, `cmd_stats`, `cmd_timestamp` and `cmd_uptime`.
use iyell.Base.{
  ℕ, ◌+◌, ◌-◌, ◌*◌, ◌/◌, ◌%◌, Bool, false, not, ◌||◌, ◌&&◌, List, [], ◌∷◌, ◌++◌, Option, none, some,
  ◌==◌, ltb, leb, if◌then◌else◌, length,
}
use iyell.Base.Int.{ℤ, pos, negsuc}
use iyell.CString.{Bytes, codes, split, is_digit}
use iyell.Conf.{hash_text_is_true}
use iyell.Daemon.{Daemon, Mode, Stats}
use iyell.Event.{EvBuffer}
use iyell.Irc.{irc_cmd_privmsg}
use iyell.Number.{decimal, strtol, skip_space, strtol_sign, scan_digits, long_max}

unfoldable pub get_nick_from_mask : Bytes → Bytes
get_nick_from_mask mask = (split (codes "!") mask).0

-- `\2[\2…\2]\2`, a word in brackets
unfoldable pub boxed : Bytes → Bytes
boxed s = 2 ∷ b'[' ∷ 2 ∷ (s ++ (2 ∷ b']' ∷ 2 ∷ []))

unfoldable pub stats_text : Stats → Bytes
unfolding boxed decimal
stats_text st =
    boxed (codes "irc")
    ++ (codes " "
        ++ (decimal (st.srv_in / 1024)
            ++ (codes " KiB in, "
                ++ (decimal (st.srv_out / 1024)
                    ++ (codes " KiB out, "
                        ++ (decimal st.lines
                            ++ (codes " lines "
                                ++ (boxed (codes "msg")
                                    ++ (codes " "
                                        ++ (decimal (st.msg_in / 1024)
                                            ++ (codes " KiB in, "
                                                ++ (decimal (st.msg_out / 1024)
                                                    ++ (codes " KiB out, "
                                                        ++ (decimal st.oe_msg
                                                            ++ (codes " offset exceeded, "
                                                            ++ (decimal st.good_msg
                                                            ++ (codes " ok, "
                                                            ++ (decimal st.bad_msg
                                                            ++ codes " error(s)"))))))))))))))))))

-- `%2d` and `%02d`: the pad goes in front of one digit.
unfoldable pub two_wide : ℕ → ℕ → Bytes
two_wide pad n = if ltb n 10 then pad ∷ decimal n else decimal n

unfoldable pub flag : Bool → ℕ → ℕ
flag set c = if set then c else b'.'

-- `cmd_build_modes`, where a flag is set; the first three bytes are not written otherwise.
unfoldable pub cmd_build_modes : Mode → Bytes
unfolding flag
cmd_build_modes m =
    2
    ∷ b'['
    ∷ 2
    ∷ flag m.banned b'b'
    ∷ flag m.connected b'c'
    ∷ flag m.is_daemon b'd'
    ∷ flag m.flood b'f'
    ∷ flag m.hooks b'h'
    ∷ flag m.key b'k'
    ∷ flag m.syslog b'l'
    ∷ flag m.nickused b'n'
    ∷ flag m.use_ssl b's'
    ∷ flag m.verbose b'v'
    ∷ 2
    ∷ b']'
    ∷ []

-- Days, hours, minutes and seconds, as `cmd_uptime` computes them from the seconds.
unfoldable pub days_of : ℕ → ℕ
days_of uptime = uptime / (60 * 60 * 24)

unfoldable pub minutes_of : ℕ → ℕ
minutes_of uptime = uptime / 60

unfoldable pub hours_of : ℕ → ℕ
unfolding minutes_of
hours_of uptime = (minutes_of uptime / 60) % 24

plural : ℕ → Bytes
plural days = if days == 1 then [] else codes "s"

clock : ℕ → Bytes
unfolding two_wide
clock uptime =
    two_wide b' ' (hours_of uptime)
    ++ (codes ":"
        ++ (two_wide b'0' (minutes_of uptime % 60) ++ (codes ":" ++ two_wide b'0' (uptime % 60))))

-- What stands between "up " and " flags: ", with the days in front.
unfoldable pub with_days : ℕ → Bytes
unfolding plural clock
with_days uptime =
    decimal (days_of uptime)
    ++ (codes " day"
        ++ (plural (days_of uptime)
            ++ (codes ", "
                ++ (if hours_of uptime == 0
                    then decimal (minutes_of uptime)
                      ++ (codes " min, " ++ (decimal (uptime % 60) ++ codes " sec."))
                    else clock uptime))))

unfoldable pub uptime_text : ℕ → Bytes
unfolding with_days clock
uptime_text uptime =
    if not (days_of uptime == 0)
    then with_days uptime
    else if not (hours_of uptime == 0)
    then clock uptime
    else if not (minutes_of uptime == 0)
    then decimal (minutes_of uptime % 60)
      ++ (codes " min, " ++ (decimal (uptime % 60) ++ codes " sec."))
    else decimal (uptime % 60) ++ codes " sec."

starts_number : Bytes → Bool
starts_number [] = false
starts_number (c ∷ s) = is_digit c

-- `endptr == argv[1]`: `strtol` reads no number.
unfoldable pub no_number : Bytes → Bool
unfolding starts_number
no_number s = not (starts_number (strtol_sign (skip_space s)).1)

-- `strtol` sets `errno` to `ERANGE`, and leaves it otherwise.
abbrev pub erange : ℕ
erange = 34

out_of_range : Bool × Bytes → Bool
out_of_range (negative, t) = ltb (if negative then long_max + 1 else long_max) (scan_digits 0 t).0

unfoldable pub errno_after : ℕ → Bytes → ℕ
unfolding out_of_range
errno_after errno s = if out_of_range (strtol_sign (skip_space s)) then erange else errno

unfoldable pub is_zero_long : ℤ → Bool
is_zero_long (pos n) = n == 0
is_zero_long (negsuc n) = false

abbrev pub buff_size : ℕ
buff_size = 4096

unfoldable pub nick_prefix : Bytes → Option Bytes → Bytes
nick_prefix who none = []
nick_prefix who (some chan) = get_nick_from_mask who ++ codes ": "

module _ {B : Type 0} ⦃ev : EvBuffer B⦄ where
  -- To the channel, under the nick, or to the sender.
  unfoldable pub answer : Bytes → Option Bytes → Bytes → Daemon B → Daemon B
  answer who none text d = record d { ircout = irc_cmd_privmsg d.ircout who text }
  answer who (some chan) text d = record d { ircout = irc_cmd_privmsg d.ircout chan text }

  unfoldable pub cmd_stats : Bytes → Option Bytes → Daemon B → Daemon B
  unfolding answer nick_prefix stats_text get_nick_from_mask
  cmd_stats who where' d =
      if hash_text_is_true d.conf.cmd (codes "stats")
      then answer who where' (nick_prefix who where' ++ stats_text d.stats) d
      else d

  unfoldable pub print_time : Bytes → Bytes → Option Bytes → Daemon B → Daemon B
  unfolding answer nick_prefix get_nick_from_mask errno_after is_zero_long no_number
  print_time arg who where' d =
      let val = strtol arg in
      let prefix = nick_prefix who where' in
      if leb buff_size (length prefix)
      then d
      else if errno_after d.env.errno arg == erange
          || not (errno_after d.env.errno arg == 0) && is_zero_long val
      then d
      else if no_number arg
      then d
      else elim (d.env.strftime val (buff_size - length prefix)) [
        | none ↦ d
        | some text ↦ answer who where' (prefix ++ text) d
      ]

  unfoldable pub cmd_timestamp : List Bytes → Bytes → Option Bytes → Daemon B → Daemon B
  unfolding print_time
  cmd_timestamp [] who where' d = d
  cmd_timestamp (name ∷ []) who where' d = d
  cmd_timestamp (name ∷ arg ∷ argv) who where' d =
      if hash_text_is_true d.conf.cmd (codes "timestamp") then print_time arg who where' d else d

  unfoldable pub print_uptime : ℕ → Bytes → Option Bytes → Daemon B → Daemon B
  unfolding answer two_wide uptime_text cmd_build_modes
  print_uptime seconds who where' d =
      answer who where'
        (two_wide b' ' (d.env.localtime seconds).0
          ++ (codes ":"
              ++ (two_wide b'0' (d.env.localtime seconds).1
                  ++ (codes "  up "
                      ++ (uptime_text (seconds - d.stats.boot_timestamp)
                          ++ (codes " flags: " ++ cmd_build_modes d.mode))))))
        d

  -- The clock does not run backwards: the time is not before the boot.
  unfoldable pub cmd_uptime : Bytes → Option Bytes → Daemon B → Daemon B
  unfolding print_uptime
  cmd_uptime who where' d =
      if d.stats.boot_timestamp == 0 || not (hash_text_is_true d.conf.cmd (codes "uptime"))
      then d
      else elim d.env.time [ none ↦ d | some seconds ↦ print_uptime seconds who where' d ]
