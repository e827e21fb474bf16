-- ===== src/Switch.antt =====
-- src/iyelld/irc.c, and the rejoin of src/iyelld/misc.c: lines of the server, and what they set off.
pub mod Kick
pub mod Invite
pub mod Settled
pub mod Total
use Prim.Native.Nat.{◌^◌}
use iyell.Base.{
  ℕ, zero, suc, ◌+◌, ◌-◌, ◌%◌, Bool, true, false, not, ◌||◌, ◌&&◌, Run, ok, fault, null_pointer,
  out_of_bounds, division_by_zero, exhausted, ◌>>=◌, List, [], ◌∷◌, ◌++◌, Option, none, some, ◌==◌,
  ltb, leb, if◌then◌else◌, length, get_elem?, take, drop,
}
use iyell.Base.Int.{ℤ, pos}
use iyell.CString.{Bytes, codes, str_eq, has_prefix, contains, split, strsep}
use iyell.Conf.{Conf, hash_text_get_first, hash_text_is_true}
use iyell.Command.{cmd_check_irc_msg}
use iyell.Ctcp.{ctcp_parse}
use iyell.Daemon.{Daemon}
use iyell.Daemon.Sched.{schedule_regain_nick, schedule_rejoin_after_ban}
use iyell.Event.{EvBuffer, evbuffer_length}
use iyell.Irc.{deref, irc_cmd_nick, irc_cmd_notice, irc_cmd_privmsg, irc_cmd_pong, irc_cmd_join}
use iyell.SyslogParse.{c_string}
use iyell.Misc.{change_nick}

-- `item[len] == ' '`
unfoldable pub is_space_at : Option ℕ → Bool
is_space_at none = false
is_space_at (some c) = c == b' '

-- A configured channel is the channel, or the channel, a space and a key.
unfoldable pub is_channel : Bytes → Bytes → Bool
unfolding is_space_at
is_channel chan item =
    str_eq item chan
    || ltb (length chan) (length item)
      && (is_space_at (get_elem? item (length chan)) && has_prefix chan item)

-- `irc_code_split`: who and the channel, `NULL` where the line ends before.
unfoldable pub irc_code_split : Option Bytes → Option Bytes × Option Bytes
unfolding strsep
irc_code_split str = let r = strsep (codes " ") str in (r.0, (strsep (codes " :\r\n") r.1).0)

-- `irc_msg_split`: the same fields under the other names, who and the channel.
unfoldable pub irc_msg_split : Option Bytes → Option Bytes × Option Bytes
unfolding strsep
irc_msg_split str = let r = strsep (codes " ") str in ((strsep (codes " :\r\n") r.1).0, r.0)

-- The first item that is the channel.
unfoldable pub find_channel : Bytes → List Bytes → Option Bytes
unfolding is_channel
find_channel chan [] = none
find_channel chan (item ∷ tmp) =
    let rest = find_channel chan tmp in if is_channel chan item then some item else rest

module _ {B : Type 0} ⦃ev : EvBuffer B⦄ where
  unfoldable pub irc_send_join : Daemon B → Daemon B
  irc_send_join d = record d {
    mode = let m = d.mode in record m { connected = true };
    ircout = irc_cmd_join d.conf d.ircout none;
  }

  -- The timer of `schedule_rejoin_after_ban`.
  unfoldable pub try_rejoin_after_ban : Daemon B → Daemon B
  unfolding irc_send_join
  try_rejoin_after_ban d =
      let d' = irc_send_join d in
      record d' { mode = let m = d'.mode in record m { banned = false } }

  unfoldable pub irc_wait_invite : Option Bytes → Daemon B → Daemon B
  irc_wait_invite str d = d

  unfoldable pub irc_wait_key : Option Bytes → Daemon B → Daemon B
  irc_wait_key str d = record d { mode = let m = d.mode in record m { key = true } }

  unfoldable pub irc_got_banned : Option Bytes → Daemon B → Daemon B
  irc_got_banned str d =
      schedule_rejoin_after_ban (pos 180)
        (record d { mode = let m = d.mode in record m { banned = true } })

  -- Behind the sender and the byte that ends the target.
  join_if : Option Bytes → List Bytes → Daemon B → Daemon B
  join_if none tmp d = d
  join_if (some chan) tmp d = elim (find_channel chan tmp) [
    | none ↦ d
    | some item ↦ record d { ircout = irc_cmd_join d.conf d.ircout (some item) }
  ]

  unfoldable pub irc_check_invite : Option Bytes → Daemon B → Daemon B
  unfolding join_if find_channel
  irc_check_invite str d = elim (d.conf.global (codes "channels")) [
    | none ↦ d
    | some tmp ↦ join_if (strsep (codes ":\r\n") (strsep (codes " ") str).1).1 tmp d
  ]

  -- The loop over the channels leaves after its first round: the `break` is outside of the `if`.
  unfoldable pub rejoin : Bytes → List Bytes → Daemon B → Daemon B
  unfolding is_channel
  rejoin chan [] d = d
  rejoin chan (item ∷ list) d =
      if is_channel chan item
      then record d { ircout = irc_cmd_join d.conf d.ircout (some item) }
      else d

  if_me : Bool → Bytes → Option (List Bytes) → Daemon B → Run (Daemon B)
  unfolding rejoin
  if_me false chan list d = ok d
  if_me true chan none d = fault null_pointer
  if_me true chan (some list) d = ok (rejoin chan list d)

  on_kick : Option Bytes × Option Bytes → Daemon B → Run (Daemon B)
  unfolding if_me deref
  on_kick (who', chan') d = do
    chan ← deref chan'
    who ← deref who'
    me ← deref (hash_text_get_first d.conf.global (codes "nick"))
    if_me (str_eq who me) chan (d.conf.global (codes "channels")) d

  unfoldable pub irc_check_kick : Option Bytes → Daemon B → Run (Daemon B)
  unfolding on_kick irc_msg_split
  irc_check_kick str d = if d.mode.nickused then ok d else on_kick (irc_msg_split str) d

  sync_notice : Bytes → Daemon B → Daemon B
  sync_notice chan d =
      if hash_text_is_true d.conf.global (codes "sync_notice")
      then record d {
        ircout = irc_cmd_notice d.ircout chan (codes "sync with " ++ (chan ++ codes " completed"));
      }
      else d

  sync_message : Bytes → Option Bytes → Daemon B → Daemon B
  sync_message chan none d = d
  sync_message chan (some tmp) d = record d { ircout = irc_cmd_privmsg d.ircout chan tmp }

  on_sync : Option Bytes → Daemon B → Daemon B
  unfolding sync_notice sync_message
  on_sync none d = d
  on_sync (some chan) d =
      sync_message chan (hash_text_get_first d.conf.global (codes "sync_message"))
        (sync_notice chan d)

  unfoldable pub irc_send_sync : Option Bytes → Daemon B → Daemon B
  unfolding on_sync irc_code_split
  irc_send_sync str d = on_sync (irc_code_split str).1 d

  -- The two tables of `irc_switch`; a private message is handled before them.
  on_code : Bytes → Bytes → Option Bytes → Daemon B → Run (Daemon B)
  on_code ap code tmp d =
      if str_eq (codes "PRIVMSG") code
      then cmd_check_irc_msg ap tmp d
      else if str_eq (codes "376") code || str_eq (codes "422") code
      then ok (irc_send_join d)
      else if str_eq (codes "433") code
      then change_nick d
      else if str_eq (codes "INVITE") code
      then ok (irc_check_invite tmp d)
      else if str_eq (codes "KICK") code
      then irc_check_kick tmp d
      else if str_eq (codes "366") code
      then ok (irc_send_sync tmp d)
      else if str_eq (codes "475") code
      then ok (irc_wait_key tmp d)
      else if str_eq (codes "474") code
      then ok (irc_got_banned tmp d)
      else if str_eq (codes "473") code
      then ok (irc_wait_invite tmp d)
      else ok d

  behind_source : Bytes → Option Bytes → Daemon B → Run (Daemon B)
  unfolding on_code
  behind_source ap none d = ok d
  behind_source ap (some s) d = let r = split (codes " :") s in on_code ap r.0 r.1 d

  unfoldable pub irc_switch : Bytes → Daemon B → Run (Daemon B)
  unfolding behind_source
  irc_switch str d = let r = split (codes " :") str in behind_source r.0 r.1 d

  -- A command of the server: `irc_messages` of `irc_parse` has `PING` alone.
  on_command : Bytes × Option Bytes → Daemon B → Run (Daemon B)
  on_command (ap, tmp) d =
      if str_eq (codes "PING") ap
      then (do out ← irc_cmd_pong d.ircout tmp; ok (record d { ircout = out }))
      else ok d

  unfoldable pub irc_line : Bytes → Daemon B → Run (Daemon B)
  unfolding on_command
  irc_line [] d = ok d
  irc_line (c ∷ line) d =
      if c == b':'
      then (if contains 1 line then ok (ctcp_parse line d) else irc_switch line d)
      else on_command (split (codes " :") (c ∷ line)) d

  count_line : Daemon B → Daemon B
  count_line d = record d { stats = let st = d.stats in record st { lines = st.lines + 1 } }

  -- The loop from `parseline`, on a line that was read; `in` is `ircin`.
  unfoldable pub irc_lines : ℕ → Bytes → Daemon B → Run (Daemon B)
  unfolding count_line
  irc_lines zero line d = fault exhausted
  irc_lines (suc fuel) line d = irc_line line (count_line d) >>= λ d₁.
      let next = ev.evbuffer_readline d₁.ircin in
      elim (evbuffer_length d₁.ircin) [
        | zero ↦ ok d₁
        | suc _ ↦ elim next.0 [
          | none ↦ ok (record d₁ { ircin = next.1 })
          | some line' ↦ irc_lines fuel line' (record d₁ { ircin = next.1 })
        ]
      ]

  unfoldable pub irc_parse : Daemon B → Run (Daemon B)
  unfolding irc_lines
  irc_parse d =
      let next = ev.evbuffer_readline d.ircin in
      elim next.0 [
        | none ↦ ok (record d { ircin = next.1 })
        | some line ↦ irc_lines (evbuffer_length d.ircin) line (record d { ircin = next.1 })
      ]
