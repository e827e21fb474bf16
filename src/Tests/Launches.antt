-- ===== src/Tests/Launches.antt =====
-- The commands of hooks on an example.
use iyell.Base.{
  ◌+◌, true, false, ok, List, [], ◌∷◌, ◌++◌, Option, none, some, ◌≡◌, refl, arith, length, All,
}
use iyell.CString.{Bytes, codes, str_eq, contains, split, skip, strtok, or_empty}
use iyell.Command.{tokens}
use iyell.Hooks.{
  Hook, hooks_search, hooks_send, hooks_add, starts_with, hooks_mangle_oneshot_argv, tail_of,
  or_nothing, join_words, hooks_generic_error, hooks_pipe_error, hooks_oneshot_error, hooks_delete,
}
use iyell.Hooks.Commands.{
  Launcher, HookState, exec_of, hooks_build_argv, behind_first, hooks_cmd_switch, run_entries,
  run_entry, start_pipe, start_oneshot, hooks_cmd_pipe, hooks_cmd_oneshot, after_pipe, send_to_hook,
}
use iyell.Hooks.Entry.{Found, texts}
use iyell.Hooks.Reach.{Reach, HookStep, Reach-WellFormed}
use iyell.Hooks.Running.{WellFormed}
use iyell.Hooks.Served.{copies, hooks_cmd_switch-Serves}
use iyell.Tests.Table.{lookup}

-- Nodes and processes are numbered.
abbrev launcher : Launcher
launcher hs path = some (record { address = length hs + 1; pid = length hs + 100 })

abbrev entries : List Bytes
entries = codes "|quotes -d" ∷ codes "uptime" ∷ []

abbrev commands : Bytes → Option (List Bytes)
commands = lookup ((codes "quote", entries) ∷ [])

-- The pipe of the entries runs already.
abbrev running : HookState
running = record {
  ghook = record { address = 1; pid = 100; path = codes "|quotes -d"; has_write = true } ∷ [];
  written = [];
  executed = [];
}

abbrev idle : HookState
idle = record { ghook = []; written = []; executed = [] }

hooks_cmd_switch-Serves_example :
    (st' : HookState) × (hooks_cmd_switch launcher commands
        (codes "quote" ∷ codes "add" ∷ [])
        (codes "joe")
        none
        running
      ≡ ok st')
    × WellFormed st'.ghook
    × All (λ entry. starts_with b'|' entry ≡ true → Found st'.ghook entry) entries
    × (texts st'.written
        ≡ [] ++ copies (hooks_send (codes "quote" ∷ codes "add" ∷ []) (codes "joe") none) entries)
unfolding starts_with hooks_search exec_of hooks_build_argv behind_first tokens strtok skip contains
    split str_eq or_empty
hooks_cmd_switch-Serves_example =
    hooks_cmd_switch-Serves launcher commands entries (codes "quote") (codes "add" ∷ [])
      (codes "joe") none running (λ hs path. (_, refl)) refl (omega arith, (omega arith, tt))
      (refl, (λ _. refl, tt))

abbrev pipe : Hook
pipe = record { address = 1; pid = 100; path = codes "|quotes -d"; has_write = true }

-- Two hooks were started by a command, and the pipe has ended since.
abbrev both : HookState
both = record {
  ghook = record { address = 2; pid = 101; path = codes "uptime"; has_write = false } ∷ pipe ∷ [];
  written = record { address = 1; text = hooks_send (codes "quote" ∷ []) (codes "joe") none } ∷ [];
  executed = (codes "quotes" ∷ codes "-d" ∷ []) ∷ (codes "quote" ∷ codes "joe" ∷ [] ∷ []) ∷ [];
}

run_both : hooks_cmd_switch launcher commands (codes "quote" ∷ []) (codes "joe") none idle ≡ ok both
unfolding hooks_cmd_switch run_entries run_entry start_pipe start_oneshot hooks_cmd_pipe
    hooks_cmd_oneshot after_pipe send_to_hook starts_with hooks_search exec_of hooks_build_argv
    behind_first tokens strtok skip contains split str_eq or_empty hooks_add
    hooks_mangle_oneshot_argv hooks_send tail_of or_nothing join_words
run_both = refl

Reach-WellFormed_example :
    WellFormed (record { address = 2; pid = 101; path = codes "uptime"; has_write = false } ∷ [])
unfolding hooks_generic_error hooks_pipe_error hooks_oneshot_error hooks_delete starts_with
Reach-WellFormed_example = Reach-WellFormed {launch = launcher} {cmd = commands} (
    Reach.next
      (Reach.next Reach.here
        (HookStep.command (codes "quote" ∷ []) (codes "joe") none idle both run_both))
      (HookStep.error false pipe both.ghook _ refl))
