-- ===== src/Misc.antt =====
-- src/iyelld/misc.c: the temporary nickname, when the own one is in use.
pub mod Nick
use Prim.Native.Nat.{◌^◌}
use iyell.Base.{
  ℕ, zero, suc, ◌+◌, ◌-◌, ◌%◌, Bool, true, false, not, ◌||◌, ◌&&◌, Run, ok, fault, null_pointer,
  out_of_bounds, division_by_zero, exhausted, ◌>>=◌, List, [], ◌∷◌, ◌++◌, Option, none, some, ◌==◌,
  ltb, leb, if◌then◌else◌, length, get_elem?, take, drop,
}
use iyell.Base.Int.{ℤ, pos}
use iyell.CString.{Bytes, codes, str_eq, has_prefix, contains, split, strsep}
use iyell.Conf.{Conf, hash_text_get_first, hash_text_is_true}
use iyell.Command.{cmd_check_irc_msg}
use iyell.Ctcp.{ctcp_parse}
use iyell.Daemon.{Daemon}
use iyell.Daemon.Sched.{schedule_regain_nick, schedule_rejoin_after_ban}
use iyell.Event.{EvBuffer, evbuffer_length}
use iyell.Irc.{deref, irc_cmd_nick, irc_cmd_notice, irc_cmd_privmsg, irc_cmd_pong, irc_cmd_join}
use iyell.SyslogParse.{c_string}

-- An `int` as a `size_t`.
unfoldable pub int_to_size : ℕ → ℕ
int_to_size n = let w = n % 2 ^ 32 in if ltb w (2 ^ 31) then w else 2 ^ 64 - 2 ^ 32 + w

-- The byte that replaces `nick[mod]`; on signed characters the first of the two tests never holds.
unfoldable pub mangled : ℕ → ℕ → ℕ
mangled c i = let b = (c + i + 1) % 256 in if ltb b'Z' b && ltb b b'a' then b'_' else b

mangle_at : Bytes → ℕ → Run Bytes
unfolding mangled
mangle_at nick i = elim (get_elem? nick i) [
  | none ↦ fault out_of_bounds
  | some c ↦ ok (take i nick ++ (mangled c i ∷ drop (i + 1) nick))
]

-- `n % d` in C
remainder : ℕ → ℕ → Run ℕ
remainder n zero = fault division_by_zero
remainder n (suc d) = ok (n % suc d)

-- The nickname that `change_nick` tries: one byte is changed, at a place that the time gives. The
-- length less one of an empty nickname wraps around, and its zero is overwritten or missed. The
-- length fits in an `int`.
unfoldable pub temporary_nick : Bytes → ℕ → Run Bytes
unfolding mangle_at int_to_size remainder
temporary_nick [] time = fault out_of_bounds
temporary_nick (c ∷ nick) time = do
  place ← remainder (int_to_size time) (length nick)
  nick' ← mangle_at (c ∷ nick) place
  ok (c_string nick')

-- `time(NULL)`, where -1 has all the bits set
unfoldable pub time_bits : Option ℕ → ℕ
time_bits none = 2 ^ 64 - 1
time_bits (some t) = t

module _ {B : Type 0} ⦃ev : EvBuffer B⦄ where
  unfoldable pub try_temporary : Daemon B → Run (Daemon B)
  unfolding deref time_bits temporary_nick
  try_temporary d = do
    nick ← deref (hash_text_get_first d.conf.global (codes "nick"))
    tmp ← temporary_nick nick (time_bits d.env.time)
    out ← irc_cmd_nick d.conf d.ircout (some tmp)
    ok (record d { ircout = out })

  unfoldable pub change_nick : Daemon B → Run (Daemon B)
  unfolding try_temporary
  change_nick d =
      let d₁ = if not d.mode.nickused then schedule_regain_nick (pos 180) d else d in
      let d₂ = record d₁ { mode = let m = d₁.mode in record m { nickused = true } } in
      if not d.mode.connected then try_temporary d₂ else ok d₂
