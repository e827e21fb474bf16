-- ===== src/Quotes.antt =====
-- src/quotes/cmd.c: the hook program `quotes` takes the line that iyelld wrote to it apart and
-- calls the command. The commands ask SQLite, and are a parameter of the model.
pub mod Wire
pub mod Db
pub mod Literals
pub mod Formats
pub mod Queries
pub mod Replies
pub mod Run
pub mod Stale
pub mod Answer
pub mod RoundTrip
pub mod Timers
use iyell.Base.{
  ℕ, zero, suc, Bool, true, false, not, ◌||◌, ◌&&◌, List, [], ◌∷◌, ◌++◌, Option, none, some, ◌==◌,
  if◌then◌else◌,
}
use iyell.CString.{Bytes, codes, str_eq, split}

-- `args`: NULL, in the line that is parsed, or in an earlier one, which was freed.
pub data Args : Type 0 where
  no_args freed : Args
  args_at : Bytes → Args

-- `args` is not set for a line without arguments, and is not reset at the label `parseline`.
unfoldable pub kept : Args → Option Bytes → Args
kept old none = old
kept old (some args) = args_at args

-- `free(tmp)`
unfoldable pub free_args : Args → Args
free_args no_args = no_args
free_args freed = freed
free_args (args_at args) = freed

pub record Request : Type 0 where
  pub nick : Bytes
  pub channel : Bytes
  pub cmd : Bytes
  pub args : Args

-- `for (; *cmd == ' '; cmd++);`
unfoldable pub skip_spaces : Bytes → Bytes
skip_spaces [] = []
skip_spaces (c ∷ s) = let r = skip_spaces s in if c == b' ' then r else c ∷ s

-- `for (; *cmd != ' ' && *cmd != '\0'; cmd++);`
unfoldable pub skip_word : Bytes → Bytes
skip_word [] = []
skip_word (c ∷ s) = let r = skip_word s in if c == b' ' then c ∷ s else r

-- Both the nick and the channel are empty.
unfoldable pub no_source : Bytes → Bytes → Bool
no_source [] [] = true
no_source _ _ = false

-- The command behind the name of the hook, and its arguments behind one space.
unfoldable pub split_command : Bytes → Bytes × Option Bytes
unfolding skip_spaces skip_word
split_command text = split (codes " ") (skip_spaces (skip_word (skip_spaces text)))

request : Args → Bytes → Bytes → Bytes → Request
unfolding split_command kept
request old nick channel text =
    let r = split_command text in
    record { nick = nick; channel = channel; cmd = r.0; args = kept old r.1 }

after_channel : Args → Bytes → Bytes × Option Bytes → Option Request
unfolding request no_source
after_channel old nick (channel, none) = none
after_channel old nick (channel, some []) = none
after_channel old nick (channel, some (c ∷ text)) =
    if no_source nick channel then none else some (request old nick channel (c ∷ text))

after_nick : Args → Bytes × Option Bytes → Option Request
unfolding after_channel
after_nick old (nick, none) = none
after_nick old (nick, some s) = after_channel old nick (split (codes ":") s)

-- What `cmd_parse` makes of one line, with what `args` was before; `none` is the label `next`, with
-- nothing done.
unfoldable pub cmd_parse : Args → Bytes → Option Request
unfolding after_nick
cmd_parse old line = after_nick old (split (codes ":") line)

-- `args` when the line was freed
unfoldable pub args_behind : Args → Option Request → Args
unfolding free_args
args_behind old none = free_args old
args_behind old (some r) = free_args r.args

-- `cmd_tab`
pub data Command : Type 0 where
  add count del id info like interval help memory random search status : Command

unfoldable pub cmd_tab : List (Bytes × Command)
cmd_tab =
    (codes "add", Command.add)
    ∷ (codes "count", Command.count)
    ∷ (codes "del", Command.del)
    ∷ (codes "id", Command.id)
    ∷ (codes "info", Command.info)
    ∷ (codes "like", Command.like)
    ∷ (codes "interval", Command.interval)
    ∷ (codes "help", Command.help)
    ∷ (codes "memory", Command.memory)
    ∷ (codes "random", Command.random)
    ∷ (codes "search", Command.search)
    ∷ (codes "status", Command.status)
    ∷ []

unfoldable pub find_command : List (Bytes × Command) → Bytes → Option Command
find_command [] cmd = none
find_command ((name, fp) ∷ tab) cmd =
    let rest = find_command tab cmd in if str_eq name cmd then some fp else rest

-- `cmd_switch`: the command that is called, if one is.
unfoldable pub cmd_switch : Bytes → Option Command
unfolding find_command cmd_tab
cmd_switch [] = none
cmd_switch (c ∷ cmd) = find_command cmd_tab (c ∷ cmd)
