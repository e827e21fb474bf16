-- ===== src/Command.antt =====
-- src/iyelld/cmd.c: commands that users give the bot in a channel or in private.
pub mod Dispatch
pub mod Settled
use iyell.Base.{
  ℕ, zero, suc, ◌+◌, ◌-◌, ◌/◌, ◌%◌, Bool, true, false, not, ◌||◌, ◌&&◌, Run, ok, fault, assertion,
  out_of_bounds, ◌>>=◌, List, [], ◌∷◌, ◌++◌, Option, none, some, ◌==◌, ltb, if◌then◌else◌, length,
  drop, get_elem?,
}
use iyell.CString.{Bytes, codes, str_eq, has_prefix, contains, split, strtok}
use iyell.Conf.{Conf, Section, hash_text_get_first, hash_text_is_true, hash_text_is_false}
use iyell.Daemon.{Daemon}
use iyell.Event.{EvBuffer}
use iyell.Irc.{irc_cmd_privmsg}
use iyell.CommandText.{cmd_stats, cmd_timestamp, cmd_uptime, get_nick_from_mask}

abbrev pub max_tokens : ℕ
max_tokens = 128

abbrev pub cmd_delim : Bytes
cmd_delim = codes " \t\r\n"

-- The loop of `cmd_build_args`, with the rounds that are left.
unfoldable pub tokens : ℕ → Bytes → List Bytes
unfolding strtok
tokens zero s = []
tokens (suc n) s = elim (strtok cmd_delim s) [ none ↦ [] | some (t, rest) ↦ t ∷ tokens n rest ]

-- The words: `argc` is their number.
unfoldable pub cmd_build_args : Bytes → List Bytes
unfolding tokens
cmd_build_args str = tokens (max_tokens - 1) str

-- The string `what` once `strtok` has put a zero behind its first token.
unfoldable pub cut_behind_token : Bytes → Bytes
cut_behind_token [] = []
cut_behind_token (c ∷ s) =
    let r = cut_behind_token s in
    if contains c cmd_delim then c ∷ r else (split cmd_delim (c ∷ s)).0

-- `while (*what == ' ' || *what == ':' || *what == '>') what++;`
unfoldable pub skip_prompt : Bytes → Bytes
skip_prompt [] = []
skip_prompt (c ∷ s) =
    let r = skip_prompt s in if c == b' ' || c == b':' || c == b'>' then r else c ∷ s

-- The entries of `cmd_tab`.
pub data Builtin : Type 0 where
  ping stats timestamp uptime : Builtin

unfoldable pub find_builtin : Bytes → Option Builtin
find_builtin what =
    if str_eq (codes "ping") what
    then some ping
    else if str_eq (codes "stats") what
    then some stats
    else if str_eq (codes "timestamp") what
    then some timestamp
    else if str_eq (codes "uptime") what
    then some uptime
    else none

unfoldable pub is_prompt : Option ℕ → Bool
is_prompt none = false
is_prompt (some c) = c == b':' || c == b'>' || c == b' '

module _ {B : Type 0} ⦃ev : EvBuffer B⦄ where
  unfoldable pub cmd_ping : Bytes → Option Bytes → Daemon B → Daemon B
  unfolding get_nick_from_mask
  cmd_ping who none d =
      if hash_text_is_true d.conf.cmd (codes "ping")
      then record d { ircout = irc_cmd_privmsg d.ircout who (codes "pong") }
      else d
  cmd_ping who (some chan) d =
      if hash_text_is_true d.conf.cmd (codes "ping")
      then record d {
        ircout = irc_cmd_privmsg d.ircout chan (get_nick_from_mask who ++ codes ": pong");
      }
      else d

  unfoldable pub call : Builtin → List Bytes → Bytes → Option Bytes → Daemon B → Daemon B
  unfolding cmd_ping
  call ping argv = cmd_ping
  call stats argv = cmd_stats
  call timestamp argv = cmd_timestamp argv
  call uptime argv = cmd_uptime

  -- At most one command a second.
  unfoldable pub rate_limit : Option ℕ → (Daemon B → Daemon B) → Daemon B → Daemon B
  rate_limit none fp d = d
  rate_limit (some current) fp d =
      if ltb current (d.last_command + 1) then d else fp (record d { last_command = current })

  -- The registered hook of that name is called, unless its entry only switches a command. The keys
  -- of a table are distinct, so at most one record of the scan has the name.
  unfoldable pub cmd_search_hooks : Bytes → List Bytes → Bytes → Option Bytes → Daemon B → Daemon B
  cmd_search_hooks name argv who where' d = elim (d.conf.cmd name) [
    | none ↦ d
    | some _ ↦
        if hash_text_is_true d.conf.cmd name || hash_text_is_false d.conf.cmd name
        then d
        else record d {
          hook_calls =
              d.hook_calls ++ (record { argv = name ∷ argv; who = who; where' = where' } ∷ []);
        }
  ]

  unfoldable pub run_words : Bytes → List Bytes → Bytes → Option Bytes → Daemon B → Run (Daemon B)
  unfolding call rate_limit cmd_search_hooks find_builtin
  run_words what [] who where' d = fault assertion
  run_words what (name ∷ argv) who where' d = ok (elim (find_builtin (cut_behind_token what)) [
    | some fp ↦ rate_limit d.env.time (call fp (name ∷ argv) who where') d
    | none ↦ if d.mode.hooks then cmd_search_hooks name argv who where' d else d
  ])

  unfoldable pub cmd_switch : Bytes → Bytes → Option Bytes → Daemon B → Run (Daemon B)
  unfolding run_words
  cmd_switch who what where' d =
      let s = skip_prompt what in run_words s (cmd_build_args s) who where' d

  unfoldable pub in_channel : Bytes → Bytes → Bytes → Bytes → Daemon B → Run (Daemon B)
  unfolding is_prompt
  in_channel me who chan str d =
      if ltb (length str) (length me + 2)
      then ok d
      else if has_prefix me str && is_prompt (get_elem? str (length me))
      then cmd_switch who (drop (length me + 1) str) (some chan) d
      else ok d

  unfoldable pub to_me : Bytes → Bytes → Bytes → Bytes → Daemon B → Run (Daemon B)
  unfolding in_channel get_nick_from_mask
  to_me me who chan str d =
      if str_eq chan me
      then (if hash_text_is_true d.conf.global (codes "allow_private_cmd")
          then cmd_switch (get_nick_from_mask who) str none d
          else ok d)
      else in_channel me who chan str d

  -- Behind `str++`, which leaves the string where it is empty.
  unfoldable pub on_message : Bytes → Bytes → Option Bytes → Daemon B → Run (Daemon B)
  unfolding to_me
  on_message who chan none d = ok d
  on_message who chan (some []) d = fault out_of_bounds
  on_message who chan (some (c ∷ str)) d = elim (hash_text_get_first d.conf.global (codes "nick")) [
    | none ↦ ok d
    | some me ↦ to_me me who chan str d
  ]

  unfoldable pub cmd_check_irc_msg : Bytes → Option Bytes → Daemon B → Run (Daemon B)
  unfolding on_message
  cmd_check_irc_msg who none d = ok d
  cmd_check_irc_msg who (some str) d = let r = split (codes " :") str in on_message who r.0 r.1 d
