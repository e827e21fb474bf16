-- ===== src/Switch/Settled.antt =====
-- The handlers of src/iyelld/irc.c, their ends and the input buffer.
use iyell.Base.{
  ℕ, Bool, true, false, not, fault, exhausted, List, [], ◌∷◌, Option, none, some, ◌≡◌, ◌≢◌, refl,
  arith, if◌then◌else◌,
}
use iyell.Base.Int.{pos}
use iyell.CString.{Bytes, codes, str_eq}
use iyell.Conf.{hash_text_get_first}
use iyell.Ctcp.{
  ctcp_parse, dispatch, ctcp_cmd_clientinfo, ctcp_cmd_ping, ctcp_cmd_time, ctcp_cmd_userinfo,
  ctcp_cmd_version,
}
use iyell.Daemon.{Daemon}
use iyell.Event.{EvBuffer}
use iyell.Irc.{deref, irc_cmd_pong, irc_cmd_nick}
use iyell.Switch.{
  irc_check_invite, join_if, rejoin, if_me, on_kick, irc_check_kick, irc_msg_split, irc_send_sync,
  on_sync, sync_notice, sync_message, irc_wait_key, irc_got_banned, irc_wait_invite, irc_send_join,
  on_code, behind_source, irc_switch, on_command, irc_line,
}
use iyell.Misc.{time_bits, change_nick, try_temporary, temporary_nick}
use iyell.Misc.Nick.{temporary_nick-total}
use iyell.Daemon.Sched.{
  schedule_regain_nick, schedule_nick_change, schedule_rejoin_after_ban, event_once,
}
use iyell.Daemon.Settled.{
  Settles, Settles-ok, Settles-fault, Settles-bind, Settles-if, Settles-from,
}
use iyell.Command.Settled.{check_msg-Settles}

deref-ends : (s : Option Bytes) → deref s ≢ fault exhausted
unfolding deref
deref-ends none = λ e. cc
deref-ends (some s) = λ e. cc

temporary_nick-ends : (nick : Bytes) (time : ℕ) → temporary_nick nick time ≢ fault exhausted
unfolding temporary_nick
temporary_nick-ends [] time = λ e. cc
temporary_nick-ends (c ∷ []) time = λ e. cc
temporary_nick-ends (c ∷ e ∷ nick) time =
    λ h. let (i, b, bound, at_i, run) = (temporary_nick-total c e nick time).1 in cc

module _ {B : Type 0} ⦃ev : EvBuffer B⦄ where
  ctcp_parse-ircin : (line : Bytes) (d : Daemon B) → (ctcp_parse line d).ircin ≡ d.ircin
  unfolding ctcp_parse dispatch ctcp_cmd_clientinfo ctcp_cmd_ping ctcp_cmd_time ctcp_cmd_userinfo
      ctcp_cmd_version
  ctcp_parse-ircin line d = ground arith

  invite-ircin : (str : Option Bytes) (d : Daemon B) → (irc_check_invite str d).ircin ≡ d.ircin
  unfolding irc_check_invite join_if
  invite-ircin str d = ground arith

  sync-ircin : (str : Option Bytes) (d : Daemon B) → (irc_send_sync str d).ircin ≡ d.ircin
  unfolding irc_send_sync on_sync sync_notice sync_message
  sync-ircin str d = ground arith

  banned-ircin : (str : Option Bytes) (d : Daemon B) → (irc_got_banned str d).ircin ≡ d.ircin
  unfolding irc_got_banned schedule_rejoin_after_ban event_once
  banned-ircin str d = ground arith

  try_temporary-Settles : (d : Daemon B) → Settles d.ircin (try_temporary d)
  unfolding try_temporary irc_cmd_nick
  try_temporary-Settles d =
      Settles-bind (deref (hash_text_get_first d.conf.global (codes "nick"))) (deref-ends _)
        (λ nick.
          Settles-bind (temporary_nick nick (time_bits d.env.time)) (temporary_nick-ends nick _)
            (λ tmp. Settles-ok _ refl))

  regain-ircin :
      (d : Daemon B)
      → (if not d.mode.nickused then schedule_regain_nick (pos 180) d else d).ircin ≡ d.ircin
  unfolding schedule_regain_nick schedule_nick_change event_once
  regain-ircin d = ground arith

  change_nick-Settles : (d : Daemon B) → Settles d.ircin (change_nick d)
  unfolding change_nick
  change_nick-Settles d =
      let d₁ : Daemon B = if not d.mode.nickused then schedule_regain_nick (pos 180) d else d in
      let d₂ : Daemon B = record d₁ { mode = let m = d₁.mode in record m { nickused = true } } in
      Settles-from (regain-ircin d)
        (Settles-if (not d.mode.connected) (try_temporary-Settles d₂) (Settles-ok d₂ refl))

  rejoin-ircin :
      (chan : Bytes) (list : List Bytes) (d : Daemon B) → (rejoin chan list d).ircin ≡ d.ircin
  unfolding rejoin
  rejoin-ircin chan [] d = refl
  rejoin-ircin chan (item ∷ list) d = ground arith

  if_me-Settles :
      (me : Bool) (chan : Bytes) (list : Option (List Bytes)) (d : Daemon B)
      → Settles d.ircin (if_me me chan list d)
  unfolding if_me
  if_me-Settles false chan list d = Settles-ok _ refl
  if_me-Settles true chan none d = Settles-fault (λ e. cc)
  if_me-Settles true chan (some list) d = Settles-ok (rejoin chan list d) (rejoin-ircin chan list d)

  on_kick-Settles : (p : Option Bytes × Option Bytes) (d : Daemon B) → Settles d.ircin (on_kick p d)
  unfolding on_kick
  on_kick-Settles (who', chan') d = Settles-bind (deref chan') (deref-ends chan') (λ chan.
      Settles-bind (deref who') (deref-ends who') (λ who.
        Settles-bind (deref (hash_text_get_first d.conf.global (codes "nick"))) (deref-ends _)
          (λ me. if_me-Settles (str_eq who me) chan (d.conf.global (codes "channels")) d)))

  kick-Settles : (str : Option Bytes) (d : Daemon B) → Settles d.ircin (irc_check_kick str d)
  unfolding irc_check_kick
  kick-Settles str d =
      Settles-if d.mode.nickused (Settles-ok d refl) (on_kick-Settles (irc_msg_split str) d)

  on_code-Settles :
      (who code : Bytes) (tmp : Option Bytes) (d : Daemon B)
      → Settles d.ircin (on_code who code tmp d)
  unfolding on_code irc_send_join irc_wait_key irc_wait_invite
  on_code-Settles who code tmp d = Settles-if _ (check_msg-Settles who tmp d) (
      Settles-if _ (Settles-ok (irc_send_join d) refl) (
        Settles-if _ (change_nick-Settles d) (
          Settles-if _ (Settles-ok (irc_check_invite tmp d) (invite-ircin tmp d)) (
            Settles-if _ (kick-Settles tmp d) (
              Settles-if _ (Settles-ok (irc_send_sync tmp d) (sync-ircin tmp d)) (
                Settles-if _ (Settles-ok (irc_wait_key tmp d) refl) (
                  Settles-if _ (Settles-ok (irc_got_banned tmp d) (banned-ircin tmp d)) (
                    Settles-if _ (Settles-ok (irc_wait_invite tmp d) refl)
                      (Settles-ok d refl)))))))))

  behind-Settles :
      (who : Bytes) (s : Option Bytes) (d : Daemon B) → Settles d.ircin (behind_source who s d)
  unfolding behind_source
  behind-Settles who none d = Settles-ok _ refl
  behind-Settles who (some s) d = on_code-Settles who _ _ d

  switch-Settles : (str : Bytes) (d : Daemon B) → Settles d.ircin (irc_switch str d)
  unfolding irc_switch
  switch-Settles str d = behind-Settles _ _ d

  on_command-Settles : (p : Bytes × Option Bytes) (d : Daemon B) → Settles d.ircin (on_command p d)
  unfolding on_command irc_cmd_pong
  on_command-Settles (who, none) d = Settles-if _ (Settles-fault (λ e. cc)) (Settles-ok _ refl)
  on_command-Settles (who, some s) d = Settles-if _ (Settles-ok _ refl) (Settles-ok _ refl)

  pub line-Settles : (line : Bytes) (d : Daemon B) → Settles d.ircin (irc_line line d)
  unfolding irc_line
  line-Settles [] d = Settles-ok _ refl
  line-Settles (c ∷ line) d =
      Settles-if _
        (Settles-if _ (Settles-ok (ctcp_parse line d) (ctcp_parse-ircin line d))
          (switch-Settles line d))
        (on_command-Settles _ d)
