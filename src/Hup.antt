-- ===== src/Hup.antt =====
-- src/iyelld/hup.c: the configuration is read again, and the channels, the nickname and the modes
-- follow it.
pub mod Channels
pub mod Modes
pub mod Key
use iyell.Base.{
  ℕ, Bool, true, false, not, ◌||◌, Run, ok, fault, ◌>>=◌, List, [], ◌∷◌, Option, none, some,
  if◌then◌else◌,
}
use iyell.CString.{Bytes, codes, str_eq}
use iyell.Conf.{Conf, hash_text_get_first, hash_text_is_true, hash_text_is_false}
use iyell.Daemon.{Daemon, Mode}
use iyell.Event.{EvBuffer}
use iyell.Irc.{irc_cmd_join, irc_cmd_part, irc_cmd_nick}

-- The inner loops: `found` at their end.
unfoldable pub found : Bytes → List Bytes → Bool
found chan [] = false
found chan (x ∷ tab) = str_eq chan x || found chan tab

-- The configuration with the old nickname put back.
unfoldable pub set_nick : Bytes → Conf → Conf
set_nick nick conf = record conf {
  global = λ key. if str_eq (codes "nick") key then some (nick ∷ []) else conf.global key;
}

module _ {B : Type 0} ⦃ev : EvBuffer B⦄ where
  -- The first loop, over the new channels.
  unfoldable pub join_new : Conf → List Bytes → List Bytes → B → B
  unfolding found
  join_new conf old [] out = out
  join_new conf old (n ∷ new) out =
      join_new conf old new (if not (found n old) then irc_cmd_join conf out (some n) else out)

  -- The second loop, over the old channels.
  unfoldable pub part_old : List Bytes → List Bytes → B → B
  unfolding found
  part_old [] new out = out
  part_old (o ∷ old) new out =
      part_old old new (if not (found o new) then irc_cmd_part out o else out)

  unfoldable pub hup_check_channels : Conf → List Bytes → List Bytes → B → B
  unfolding join_new part_old
  hup_check_channels conf old new out = part_old old new (join_new conf old new out)

  unfoldable pub try_nick_change : Daemon B → Run (Daemon B)
  try_nick_change d = do
    out ← irc_cmd_nick d.conf d.ircout none
    ok (record d { ircout = out; mode = let m = d.mode in record m { nickused = false } })

  unfoldable pub hup_check_nick : Bytes → Option Bytes → Daemon B → Run (Daemon B)
  unfolding set_nick
  hup_check_nick old none d = ok (record d { conf = set_nick old d.conf })
  hup_check_nick old (some new) d = if str_eq new old then ok d else try_nick_change d

unfoldable pub hup_update_modes : Conf → Mode → Mode
hup_update_modes conf mode = record mode {
  color = hash_text_is_true conf.global (codes "color");
  sl3164_silent = hash_text_is_true conf.global (codes "syslog_silent_drop");
  hooks = hash_text_is_true conf.global (codes "hooks");
  syslog = hash_text_is_true conf.global (codes "syslog");
  throttling = hash_text_is_true conf.global (codes "throttling");
}

-- `init_flags` of src/iyelld/init.c, on the flags as the command line left them.
unfoldable pub init_flags : Conf → Mode → Mode
init_flags conf mode = record mode {
  color = not (hash_text_is_false conf.global (codes "color")) || mode.color;
  sl3164_silent = hash_text_is_true conf.global (codes "syslog_silent_drop") || mode.sl3164_silent;
  hooks = hash_text_is_true conf.global (codes "hooks") || mode.hooks;
  syslog = hash_text_is_true conf.global (codes "syslog") || mode.syslog;
  throttling = hash_text_is_true conf.global (codes "throttling") || mode.throttling;
}

-- What follows once the new configuration is in place, with its channels.
module _ {B : Type 0} ⦃ev : EvBuffer B⦄ where
  on_new_channels : Bytes → List Bytes → Option (List Bytes) → Daemon B → Run (Daemon B)
  unfolding hup_check_channels hup_check_nick
  on_new_channels old_n old_c none d = ok d
  on_new_channels old_n old_c (some new_c) d = do
    d' ←
        hup_check_nick old_n (hash_text_get_first d.conf.global (codes "nick"))
          (record d { ircout = hup_check_channels d.conf old_c new_c d.ircout })
    ok (record d' { mode = hup_update_modes d'.conf d'.mode })

  on_saved : Option Bytes → Option (List Bytes) → Conf → Daemon B → Run (Daemon B)
  unfolding on_new_channels
  on_saved none old_c fresh d = ok d
  on_saved (some old_n) none fresh d = ok d
  on_saved (some old_n) (some old_c) fresh d =
      on_new_channels old_n old_c (fresh.global (codes "channels")) (record d { conf = fresh })

  -- `fresh` is what `conf_reinit` and `conf_read` leave in `g_conf`. The signal to the hooks'
  -- processes is not modelled.
  unfoldable pub hup_handler : Conf → Daemon B → Run (Daemon B)
  unfolding on_saved
  hup_handler fresh d =
      on_saved (hash_text_get_first d.conf.global (codes "nick")) (d.conf.global (codes "channels"))
        fresh d
