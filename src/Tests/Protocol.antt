-- ===== src/Tests/Protocol.antt =====
-- The protocol of the server, the hooks and the commands on examples.
use iyell.Base.{
  All, true, false, ok, fault, assertion, division_by_zero, ℕ, ◌+◌, ◌<◌, get_elem?, take, drop,
  List, [], ◌∷◌, ◌++◌, some, ◌≡◌, ◌≢◌, ◌⊎◌, ◌↔◌, refl, arith, if◌then◌else◌,
}
use iyell.Command.{cmd_switch, cmd_check_irc_msg, skip_prompt, is_prompt}
use iyell.Command.Dispatch.{Blank, cmd_switch_aborts_iff, cmd_check_irc_msg-addressed}
use iyell.Conf.{hash_text_get_first}
use iyell.CString.{Bytes, codes, contains, str_eq, has_prefix}
use iyell.Ctcp.{contains_text, ctcp_parse}
use iyell.Ctcp.Reply.{ping_line, ctcp_parse-ping}
use iyell.Hooks.{Hook, hooks_delete, hooks_send, or_nothing}
use iyell.Hooks.Table.{Lacks, Unlinks, hooks_delete-Unlinks}
use iyell.Irc.{irc_cmd_join}
use iyell.Irc.Lines.{join_line}
use iyell.Quotes.{freed, kept, cmd_parse, no_source}
use iyell.Quotes.Wire.{IsWord, command_of, cmd_parse-hooks_send}
use iyell.Switch.{irc_parse, irc_check_invite, irc_check_kick, is_channel}
use iyell.Misc.{temporary_nick, mangled}
use iyell.SyslogParse.{c_string}
use iyell.Switch.Invite.{FirstMatch, invite_args, irc_check_invite-FirstMatch}
use iyell.Switch.Kick.{kick_args, irc_check_kick-first}
use iyell.Switch.Total.{irc_parse-Finishes}
use iyell.Info.Total.{Finishes}
use iyell.Misc.Nick.{temporary_nick-total}
use iyell.Tests.Buffer.{list_buffer}
use iyell.Tests.Samples.{conf, daemon}

irc_check_kick-first_example :
    irc_check_kick (some (kick_args (codes "#b") (codes "bot") (codes ":out"))) daemon
    ≡ ok (
        if is_channel (codes "#b") (codes "#a")
        then record daemon { ircout = irc_cmd_join conf daemon.ircout (some (codes "#a")) }
        else daemon)
unfolding contains hash_text_get_first str_eq
irc_check_kick-first_example =
    irc_check_kick-first (codes "#b") (codes "bot") (codes ":out") (codes "#a") (codes "#b" ∷ [])
      daemon (refl, (refl, tt)) (refl, (refl, (refl, tt))) refl refl refl

temporary_nick-total_example :
    (temporary_nick (codes "b") 1234567890 ≡ fault division_by_zero)
    × ((i : ℕ) × (b : ℕ) × (i + 1 < 3)
        × (get_elem? (codes "bot") i ≡ some b)
        × (temporary_nick (codes "bot") 1234567890
            ≡ ok (c_string (take i (codes "bot") ++ (mangled b i ∷ drop (i + 1) (codes "bot"))))))
temporary_nick-total_example = temporary_nick-total b'b' b'o' (codes "t") 1234567890

cmd_check_irc_msg-addressed_example :
    cmd_check_irc_msg
      (codes "al!u@h")
      (some (codes "#a" ++ (b' ' ∷ b':' ∷ (codes "bot" ++ codes ": ping"))))
      daemon
    ≡ cmd_switch (codes "al!u@h") (codes " ping") (some (codes "#a")) daemon
unfolding contains hash_text_get_first str_eq is_prompt
cmd_check_irc_msg-addressed_example =
    cmd_check_irc_msg-addressed (codes "bot") (codes "al!u@h") (codes "#a") (codes "ping") b':' b' '
      daemon (refl, (refl, tt)) refl refl refl

cmd_switch_aborts_iff_example :
    (cmd_switch (codes "al!u@h") (codes "  ") (some (codes "#a")) daemon ≡ fault assertion)
    ↔ Blank (skip_prompt (codes "  "))
cmd_switch_aborts_iff_example =
    cmd_switch_aborts_iff (codes "al!u@h") (codes "  ") (some (codes "#a")) daemon

ctcp_parse-ping_example :
    (out : Bytes) × (ctcp_parse
        (ping_line (codes "al") (codes "u PRIVMSG bot :") (codes "42"))
        daemon
      ≡ record daemon { ircout = out })
    × (out
        ≡ daemon.ircout
          ++ (codes "NOTICE "
              ++ (codes "al"
                  ++ (b' ' ∷ b':' ∷ 1 ∷ (codes "PING " ++ (codes "42" ++ (1 ∷ b'\n' ∷ [])))))))
unfolding contains contains_text has_prefix
ctcp_parse-ping_example =
    ctcp_parse-ping (codes "al") (codes "u PRIVMSG bot :") (codes "42") daemon (refl, (refl, tt))
      (refl, (refl, tt))
      (
        refl,
        (
          refl,
          (
            refl,
            (
              refl,
              (
                refl,
                (refl, (refl, (refl, (refl, (refl, (refl, (refl, (refl, (refl, (refl, tt)))))))))),
              ),
            ),
          ),
        ),
      )
      (refl, (refl, tt)) (omega arith) refl

word : {w : Bytes} → contains b' ' w ≡ false → w ≢ [] → IsWord w
word solid filled = record { solid = solid; filled = filled }

abbrev words : List Bytes
words = codes "quote" ∷ codes "add" ∷ codes "a" ∷ codes "b" ∷ []

cmd_parse-hooks_send_example :
    (line : Bytes) × (hooks_send words (codes "al") (some (codes "#a")) ≡ line ++ codes "\n")
    × (cmd_parse freed line
        ≡ some (record {
          nick = codes "al";
          channel = or_nothing (some (codes "#a"));
          cmd = (command_of words).0;
          args = kept freed (command_of words).1;
        }))
unfolding contains no_source or_nothing
cmd_parse-hooks_send_example =
    cmd_parse-hooks_send freed words (codes "al") (some (codes "#a"))
      (word refl (λ e. cc), (word refl (λ e. cc), (word refl (λ e. cc), (word refl (λ e. cc), tt))))
      (λ e. cc) refl refl refl

abbrev pipe : Hook
pipe = record { address = 1; pid = 7; path = codes "|quotes"; has_write = true }

abbrev oneshot : Hook
oneshot = record { address = 2; pid = 8; path = codes "uptime"; has_write = false }

hooks_delete-Unlinks_example :
    ((hooks_delete (pipe ∷ oneshot ∷ []) 2 ≡ (1, pipe ∷ oneshot ∷ []))
      × Lacks 2 (pipe ∷ oneshot ∷ []))
    ⊎ ((rest : List Hook) × (hooks_delete (pipe ∷ oneshot ∷ []) 2 ≡ (0, rest))
        × Unlinks (pipe ∷ oneshot ∷ []) 2 rest)
hooks_delete-Unlinks_example = hooks_delete-Unlinks (pipe ∷ oneshot ∷ []) 2

irc_check_invite-FirstMatch_example :
    ((irc_check_invite (some (invite_args (codes "bot") (codes "#b"))) daemon ≡ daemon)
      × All (λ x. is_channel (codes "#b") x ≡ false) (codes "#a" ∷ codes "#b" ∷ []))
    ⊎ ((item : Bytes) × (out : Bytes) × (irc_check_invite
            (some (invite_args (codes "bot") (codes "#b")))
            daemon
          ≡ record daemon { ircout = out })
        × (out ≡ daemon.ircout ++ join_line item)
        × FirstMatch (codes "#b") (codes "#a" ∷ codes "#b" ∷ []) item)
unfolding contains str_eq
irc_check_invite-FirstMatch_example =
    irc_check_invite-FirstMatch (codes "bot") (codes "#b") (codes "#a" ∷ codes "#b" ∷ []) daemon
      (refl, (refl, (refl, tt))) refl

irc_parse-Finishes_example : Finishes (irc_parse daemon)
irc_parse-Finishes_example = irc_parse-Finishes daemon
