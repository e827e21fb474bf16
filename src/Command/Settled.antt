-- ===== src/Command/Settled.antt =====
-- The commands of src/iyelld/cmd.c, their ends and the input buffer.
use iyell.Base.{
  ℕ, List, [], ◌∷◌, Option, none, some, ◌≡◌, refl, arith, if◌then◌else◌, inl, inr, Option-cases,
}
use iyell.CString.{Bytes, codes}
use iyell.Conf.{hash_text_get_first}
use iyell.Command.{
  Builtin, ping, stats, timestamp, uptime, cmd_ping, call, rate_limit, cmd_search_hooks, run_words,
  cmd_switch, in_channel, to_me, on_message, cmd_check_irc_msg, find_builtin, cut_behind_token,
  skip_prompt,
}
use iyell.CommandText.{
  get_nick_from_mask, answer, cmd_stats, cmd_timestamp, cmd_uptime, print_time, print_uptime,
}
use iyell.Daemon.{Daemon}
use iyell.Event.{EvBuffer}
use iyell.Daemon.Settled.{Settles, Settles-ok, Settles-fault, Settles-if}

module _ {B : Type 0} ⦃ev : EvBuffer B⦄ where
  answer-ircin :
      (who : Bytes) (where' : Option Bytes) (text : Bytes) (d : Daemon B)
      → (answer who where' text d).ircin ≡ d.ircin
  unfolding answer
  answer-ircin who where' text d = ground arith

  call-ircin :
      (fp : Builtin) (argv : List Bytes) (who : Bytes) (where' : Option Bytes) (d : Daemon B)
      → (call fp argv who where' d).ircin ≡ d.ircin
  unfolding call cmd_ping cmd_stats cmd_timestamp cmd_uptime print_time print_uptime answer
  call-ircin ping argv who none d = ground arith
  call-ircin ping argv who (some chan) d = ground arith
  call-ircin stats argv who where' d = ground arith
  call-ircin timestamp [] who where' d = refl
  call-ircin timestamp (name ∷ []) who where' d = refl
  call-ircin timestamp (name ∷ arg ∷ argv) who where' d = ground arith
  call-ircin uptime argv who where' d = ground arith

  search-ircin :
      (name : Bytes) (argv : List Bytes) (who : Bytes) (where' : Option Bytes) (d : Daemon B)
      → (cmd_search_hooks name argv who where' d).ircin ≡ d.ircin
  unfolding cmd_search_hooks
  search-ircin name argv who where' d = ground arith

  rate_limit-ircin :
      (time : Option ℕ) (fp : Daemon B → Daemon B) (d : Daemon B)
      → ((d' : Daemon B) → (fp d').ircin ≡ d'.ircin)
      → (rate_limit time fp d).ircin ≡ d.ircin
  unfolding rate_limit
  rate_limit-ircin none fp d h = refl
  rate_limit-ircin (some current) fp d h =
      let run = h (record d { last_command = current }) in ground (arith, run)

  words-ircin :
      (what name : Bytes) (argv : List Bytes) (who : Bytes) (where' : Option Bytes)
      (found : Option Builtin) (d : Daemon B)
      → (elim found as (λ o. Daemon B) [
        | some fp ↦ rate_limit d.env.time (call fp (name ∷ argv) who where') d
        | none ↦ if d.mode.hooks then cmd_search_hooks name argv who where' d else d
      ]).ircin
        ≡ d.ircin
  unfolding rate_limit
  words-ircin what name argv who where' none d =
      let h = search-ircin name argv who where' d in ground (arith, h)
  words-ircin what name argv who where' (some fp) d =
      rate_limit-ircin d.env.time (call fp (name ∷ argv) who where') d
        (call-ircin fp (name ∷ argv) who where')

  run_words-Settles :
      (what : Bytes) (argv : List Bytes) (who : Bytes) (where' : Option Bytes) (d : Daemon B)
      → Settles d.ircin (run_words what argv who where' d)
  unfolding run_words
  run_words-Settles what [] who where' d = Settles-fault (λ e. cc)
  run_words-Settles what (name ∷ argv) who where' d =
      Settles-ok _ (words-ircin what name argv who where' (find_builtin (cut_behind_token what)) d)

  cmd_switch-Settles :
      (who what : Bytes) (where' : Option Bytes) (d : Daemon B)
      → Settles d.ircin (cmd_switch who what where' d)
  unfolding cmd_switch
  cmd_switch-Settles who what where' d = run_words-Settles (skip_prompt what) _ who where' d

  in_channel-Settles :
      (me who chan str : Bytes) (d : Daemon B) → Settles d.ircin (in_channel me who chan str d)
  unfolding in_channel
  in_channel-Settles me who chan str d =
      Settles-if _ (Settles-ok _ refl)
        (Settles-if _ (cmd_switch-Settles who _ (some chan) d) (Settles-ok _ refl))

  to_me-Settles :
      (me who chan str : Bytes) (d : Daemon B) → Settles d.ircin (to_me me who chan str d)
  unfolding to_me
  to_me-Settles me who chan str d =
      Settles-if _
        (Settles-if _ (cmd_switch-Settles (get_nick_from_mask who) str none d) (Settles-ok _ refl))
        (in_channel-Settles me who chan str d)

  on_message-Settles :
      (who chan : Bytes) (str : Option Bytes) (d : Daemon B)
      → Settles d.ircin (on_message who chan str d)
  unfolding on_message
  on_message-Settles who chan none d = Settles-ok _ refl
  on_message-Settles who chan (some []) d = Settles-fault (λ e. cc)
  on_message-Settles who chan (some (c ∷ str)) d =
      elim (Option-cases (hash_text_get_first d.conf.global (codes "nick"))) [
        | inl e ↦ rw (e, on_message) (Settles-ok _ refl)
        | inr (me, e) ↦ rw (e, on_message) (to_me-Settles me who chan str d)
      ]

  pub check_msg-Settles :
      (who : Bytes) (str : Option Bytes) (d : Daemon B)
      → Settles d.ircin (cmd_check_irc_msg who str d)
  unfolding cmd_check_irc_msg
  check_msg-Settles who none d = Settles-ok _ refl
  check_msg-Settles who (some str) d = on_message-Settles who _ _ d
