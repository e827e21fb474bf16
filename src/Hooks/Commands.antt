-- ===== src/Hooks/Commands.antt =====
-- src/iyelld/hooks.c: how a command of a user starts hooks and reaches those that run, and what
-- comes back from them. Whether a process can be started, with its pipes and its memory, is an
-- answer of the system.
use iyell.Base.{
  ℕ, zero, suc, ◌-◌, ◌*◌, Bool, true, false, ◌&&◌, Run, ok, fault, null_pointer, assertion, ◌>>=◌,
  List, [], ◌∷◌, ◌++◌, Option, none, some, if◌then◌else◌, take,
}
use iyell.CString.{Bytes}
use iyell.Command.{max_tokens, tokens}
use iyell.Daemon.{Daemon}
use iyell.Event.{EvBuffer}
use iyell.Hooks.{
  Hook, hooks_add, hooks_count, hooks_search, hooks_send, hooks_mangle_oneshot_argv,
  hooks_generic_error, hooks_parse_cmd, starts_with,
}

-- A process that was started: the node of its hook, and its number.
pub record Launch : Type 0 where
  pub address : ℕ
  pub pid : ℕ

-- What was written to the node at an address.
pub record Written : Type 0 where
  pub address : ℕ
  pub text : Bytes

-- The list of hooks, what was written to hooks, and the vectors of the processes that were started,
-- each with the last one at the end.
pub record HookState : Type 0 where
  pub ghook : List Hook
  pub written : List Written
  pub executed : List (List Bytes)

-- Whether another process can be started for a path, when these hooks run.
abbrev pub Launcher : Type 0
Launcher = List Hook → Bytes → Option Launch

-- The last token of a full array is overwritten by the end.
unfoldable pub hooks_build_argv : Bytes → List Bytes
hooks_build_argv cmd = take (max_tokens - 1) (tokens max_tokens cmd)

-- `hooks_send` on the hook that was found or started. A hook without a writing end is none that
-- `bufferevent_write` can write to.
unfoldable pub send_to_hook : Hook → List Bytes → Bytes → Option Bytes → HookState → Run HookState
send_to_hook h argv who where' st =
    if h.has_write
    then ok (record st {
      written =
          st.written ++ (record { address = h.address; text = hooks_send argv who where' } ∷ []);
    })
    else fault null_pointer

-- `NULL` is `none`.
unfoldable pub hooks_cmd_pipe : Launcher → Bytes → List Bytes → HookState → Option Hook × HookState
hooks_cmd_pipe launch cmd exec st = elim (launch st.ghook cmd) [
  | none ↦ (none, st)
  | some l ↦
      let h : Hook = record { address = l.address; pid = l.pid; path = cmd; has_write = true } in
      (some h, record st { ghook = hooks_add st.ghook h; executed = st.executed ++ (exec ∷ []) })
]

-- The vector is built in the process that was started.
unfoldable pub hooks_cmd_oneshot :
    Launcher → Bytes → List Bytes → List Bytes → Bytes → Option Bytes → HookState → Run HookState
hooks_cmd_oneshot launch cmd exec argv who where' st = elim (launch st.ghook cmd) [
  | none ↦ ok st
  | some l ↦ do
    tmp ← hooks_mangle_oneshot_argv exec argv who where'
    ok (record st {
      ghook =
          hooks_add st.ghook
            (record { address = l.address; pid = l.pid; path = cmd; has_write = false });
      executed = st.executed ++ (tmp ∷ []);
    })
]

-- `h` is used although it may be `NULL`.
unfoldable pub after_pipe :
    Option Hook × HookState → List Bytes → Bytes → Option Bytes → Run HookState
unfolding send_to_hook
after_pipe (none, st) argv who where' = fault null_pointer
after_pipe (some h, st) argv who where' = send_to_hook h argv who where' st

unfoldable pub start_pipe :
    Launcher → Bytes → List Bytes → List Bytes → Bytes → Option Bytes → HookState → Run HookState
unfolding hooks_cmd_pipe after_pipe
start_pipe launch cmd [] argv who where' st = fault assertion
start_pipe launch cmd (x ∷ exec) argv who where' st =
    after_pipe (hooks_cmd_pipe launch cmd (x ∷ exec) st) argv who where'

unfoldable pub start_oneshot :
    Launcher → Bytes → List Bytes → List Bytes → Bytes → Option Bytes → HookState → Run HookState
unfolding hooks_cmd_oneshot
start_oneshot launch cmd [] argv who where' st = fault assertion
start_oneshot launch cmd (x ∷ exec) argv who where' st =
    hooks_cmd_oneshot launch cmd (x ∷ exec) argv who where' st

unfoldable pub behind_first : Bytes → Bytes
behind_first [] = []
behind_first (c ∷ s) = s

-- The words of an entry of the configuration, without the `|` of a pipe.
unfoldable pub exec_of : Bytes → List Bytes
unfolding starts_with behind_first hooks_build_argv
exec_of cmd = hooks_build_argv (if starts_with b'|' cmd then behind_first cmd else cmd)

-- The body of the loop; `strdup` succeeds.
unfoldable pub run_entry :
    Launcher → Bytes → List Bytes → Bytes → Option Bytes → HookState → Run HookState
unfolding exec_of starts_with start_pipe start_oneshot send_to_hook
run_entry launch cmd argv who where' st = elim (starts_with b'|' cmd) [
  | true ↦ elim (hooks_search st.ghook cmd) [
    | some h ↦ send_to_hook h argv who where' st
    | none ↦ start_pipe launch cmd (exec_of cmd) argv who where' st
  ]
  | false ↦ start_oneshot launch cmd (exec_of cmd) argv who where' st
]

unfoldable pub run_entries :
    Launcher → List Bytes → List Bytes → Bytes → Option Bytes → HookState → Run HookState
unfolding run_entry
run_entries launch [] argv who where' st = ok st
run_entries launch (cmd ∷ list) argv who where' st =
    run_entry launch cmd argv who where' st >>= λ st'. run_entries launch list argv who where' st'

-- `cmd` is `g_conf.cmd`; a command that it lacks is `NULL`, which is read.
unfoldable pub hooks_cmd_switch :
    Launcher
    → (Bytes → Option (List Bytes))
    → List Bytes
    → Bytes
    → Option Bytes
    → HookState
    → Run HookState
unfolding run_entries
hooks_cmd_switch launch cmd [] who where' st = fault assertion
hooks_cmd_switch launch cmd (name ∷ argv) who where' st = elim (cmd name) [
  | none ↦ fault null_pointer
  | some list ↦ run_entries launch list (name ∷ argv) who where' st
]

-- `HOOKS_TIMEOUT_SEC * 10`
abbrev pub hooks_rounds : ℕ
hooks_rounds = 15 * 10

-- The loop, with the rounds that are left: the tenths of a second that it waits. Nothing in it runs
-- the events.
wait_for : ℕ → List Hook → ℕ
wait_for zero ghook = 0
wait_for (suc n) ghook =
    let rest = wait_for n ghook in elim (hooks_count ghook) [ zero ↦ 0 | suc _ ↦ suc rest ]

-- The rounds that were waited, and whether all hooks had ended.
unfoldable pub hooks_shutdown : List Hook → ℕ × Bool
unfolding wait_for
hooks_shutdown ghook =
    let i = wait_for hooks_rounds ghook in
    (i, elim (hooks_rounds - i) [ zero ↦ false | suc _ ↦ true ])

module _ {B : Type 0} ⦃ev : EvBuffer B⦄ where
  open ev use {evbuffer_add, evbuffer_readline}

  -- A line that was understood is sent at once when the bot is connected.
  on_line : Option Bytes → Daemon B → Daemon B
  on_line none d = d
  on_line (some line) d =
      let r = hooks_parse_cmd line d.ircout in
      let d' = record d { ircout = r.1 } in
      if r.0 && d.mode.connected then record d' { writing = true } else d'

  -- `buff` is what `bufferevent_read` answers, and `data'` the buffer of the hook. One line is read.
  unfoldable pub hooks_read :
      Bytes → Hook → B → List Hook → Daemon B → Run (B × (List Hook × Daemon B))
  unfolding on_line
  hooks_read [] h data' ghook d = do
    ghook' ← hooks_generic_error false h ghook
    ok (data', (ghook', d))
  hooks_read (c ∷ buff) h data' ghook d =
      let next = evbuffer_readline (evbuffer_add data' (c ∷ buff)) in
      ok (next.1, (ghook, on_line next.0 d))
