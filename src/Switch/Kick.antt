-- ===== src/Switch/Kick.antt =====
-- The handlers of KICK and PING of src/iyelld/irc.c.
use iyell.Base.{
  false, ok, fault, null_pointer, List, ◌∷◌, ◌++◌, some, ◌≡◌, refl, arith, append_assoc,
  if◌then◌else◌,
}
use iyell.CString.{Bytes, codes, str_eq, contains, split, strsep}
use iyell.CString.Split.{str_eq_refl, Free, split-Free}
use iyell.Conf.{hash_text_get_first}
use iyell.Daemon.{Daemon}
use iyell.Event.{EvBuffer}
use iyell.Irc.{deref, irc_cmd_join, irc_cmd_pong, skip_colon}
use iyell.Switch.{
  is_channel, irc_check_kick, on_kick, if_me, irc_msg_split, rejoin, irc_line, on_command,
}

-- `:who KICK chan me :why`, from behind the command on.
abbrev pub kick_args : Bytes → Bytes → Bytes → Bytes
kick_args chan nick why = chan ++ (b' ' ∷ (nick ++ (b' ' ∷ why)))

msg_split-kick_args :
    (chan nick why : Bytes)
    → Free (codes " ") chan
    → Free (codes " :\r\n") nick
    → irc_msg_split (some (kick_args chan nick why)) ≡ (some nick, some chan)
unfolding irc_msg_split strsep contains
msg_split-kick_args chan nick why c n =
    rw (split-Free (codes " ") chan b' ' (nick ++ (b' ' ∷ why)) c refl) rw
      (split-Free (codes " :\r\n") nick b' ' why n refl) refl

module _ {B : Type 0} ⦃ev : EvBuffer B⦄ where
  open ev use {evbuffer_data, data-add, readline_shrinks}

  -- Kicked from a channel under its own nickname, the bot joins it again when the channel is the
  -- first that is configured, and does nothing when the first that is configured is another one,
  -- whatever the others are.
  pub irc_check_kick-first :
      (chan nick why item : Bytes) (list : List Bytes) (d : Daemon B)
      → Free (codes " ") chan
      → Free (codes " :\r\n") nick
      → d.mode.nickused ≡ false
      → hash_text_get_first d.conf.global (codes "nick") ≡ some nick
      → d.conf.global (codes "channels") ≡ some (item ∷ list)
      → irc_check_kick (some (kick_args chan nick why)) d
        ≡ ok (
            if is_channel chan item
            then record d { ircout = irc_cmd_join d.conf d.ircout (some item) }
            else d)
  unfolding irc_check_kick on_kick if_me deref rejoin
  irc_check_kick-first chan nick why item list d c n own me channels =
      let split' = msg_split-kick_args chan nick why c n in
      let same = str_eq_refl nick in ground (arith, split', same)

  -- A PING with an argument is answered by a PONG with the argument; a PING without one reads a null
  -- pointer.
  pub irc_line-ping :
      (rest : Bytes) (d : Daemon B)
      → (irc_line (codes "PING") d ≡ fault null_pointer)
        × ((d' : Daemon B) × (irc_line (codes "PING :" ++ rest) d ≡ ok d')
            × (evbuffer_data d'.ircout
                ≡ evbuffer_data d.ircout ++ (codes "PONG " ++ (rest ++ codes "\n"))))
  unfolding irc_line on_command irc_cmd_pong skip_colon deref split str_eq contains
  irc_line-ping rest d = (refl, (_, refl, simp (data-add, append_assoc)))
