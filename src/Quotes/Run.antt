-- ===== src/Quotes/Run.antt =====
-- src/quotes/cmd.c and src/quotes/io.c: the commands of `quotes`, and the lines that they come in.
use iyell.Base.{
  ℕ, zero, suc, Run, ok, fault, exhausted, use_after_free, ◌>>=◌, List, [], ◌∷◌, ◌++◌, Option, none,
  some,
}
use iyell.CString.{Bytes, codes}
use iyell.Event.{EvBuffer, evbuffer_length}
use iyell.Number.{decimal}
use iyell.Quotes.{
  Args, no_args, freed, args_at, Request, Command, cmd_parse, cmd_switch, args_behind,
}
use iyell.Quotes.Db.{
  Sqlite, Row, db_add, db_count_quotes, db_del, db_id, db_info, db_interval, db_like, db_random,
  db_search,
}
use iyell.Quotes.Replies.{
  Quotes, say, cmd_count_cb, cmd_del_cb, cmd_data_cb, cmd_info_cb, cmd_interval_cb, cmd_search_cb,
}

-- A command that looks at its arguments.
unfoldable pub read_args : Args → Run (Option Bytes)
read_args no_args = ok none
read_args freed = fault use_after_free
read_args (args_at args) = ok (some args)

-- Without an argument, any quote.
pattern_of : Option Bytes → Bytes
pattern_of none = codes "*"
pattern_of (some []) = codes "*"
pattern_of (some (c ∷ args)) = c ∷ args

module _ {B : Type 0} ⦃ev : EvBuffer B⦄ (sql : Sqlite) where
  open ev use {evbuffer_readline, evbuffer_add}
  open sql use {sqlite3_exec, sqlite3_last_insert_rowid, sqlite3_libversion}

  -- The rows, one after the other.
  unfoldable pub each_row : (Row → Quotes B → Run (Quotes B)) → List Row → Quotes B → Run (Quotes B)
  each_row callback [] st = ok st
  each_row callback (row ∷ rows) st = callback row st >>= λ st'. each_row callback rows st'

  -- The message of an error, if there is one.
  unfoldable pub on_error : Bytes → Bytes → Option Bytes → Quotes B → Run (Quotes B)
  on_error nick channel none st = ok st
  on_error nick channel (some sql_error) st = say nick channel (codes "error: " ++ sql_error) st

  -- `sqlite3_exec`, with its callback, and what the command does behind it.
  unfoldable pub ask :
      (Row → Quotes B → Run (Quotes B)) → Bytes → Bytes → Bytes → Quotes B → Run (Quotes B)
  unfolding each_row on_error
  ask callback query nick channel st =
      let r = sqlite3_exec st.queries query in
      each_row callback r.0 (record st { queries = st.queries ++ (query ∷ []) }) >>= λ st'.
      on_error nick channel r.1 st'

  -- The answer to a command that lacks its argument.
  usage : Bytes → Bytes → Bytes → Quotes B → Run (Quotes B)
  usage nick channel text st = say nick channel (st.name ++ text) st

  -- `args == NULL || strlen(args) == 0`
  needs :
      Bytes
      → Bytes
      → Bytes
      → (Bytes → Quotes B → Run (Quotes B))
      → Option Bytes
      → Quotes B
      → Run (Quotes B)
  unfolding usage
  needs nick channel text run none st = usage nick channel text st
  needs nick channel text run (some []) st = usage nick channel text st
  needs nick channel text run (some (c ∷ args)) st = run (c ∷ args) st

  after_add : Bytes → Bytes → Option Bytes → Quotes B → Run (Quotes B)
  after_add nick channel (some sql_error) st = say nick channel (codes "error: " ++ sql_error) st
  after_add nick channel none st =
      say nick channel
        (codes "quote added successfully, id: " ++ decimal (sqlite3_last_insert_rowid st.queries))
        st

  unfoldable pub cmd_add : Bytes → Bytes → Option Bytes → Quotes B → Run (Quotes B)
  unfolding needs after_add
  cmd_add nick channel = needs nick channel (codes " add <something>") (λ args st.
      let query = db_add sql nick channel args in
      after_add nick channel (sqlite3_exec st.queries query).1
        (record st { queries = st.queries ++ (query ∷ []) }))

  unfoldable pub cmd_count : Bytes → Bytes → Quotes B → Run (Quotes B)
  unfolding ask
  cmd_count nick channel st =
      ask (cmd_count_cb nick channel) (db_count_quotes sql st.global channel) nick channel st

  unfoldable pub cmd_del : Bytes → Bytes → Option Bytes → Quotes B → Run (Quotes B)
  unfolding ask needs
  cmd_del nick channel =
      needs nick channel (codes " del <id>") (λ args st.
        ask (cmd_del_cb nick channel) (db_del sql st.global channel args) nick channel st)

  unfoldable pub cmd_id : Bytes → Bytes → Option Bytes → Quotes B → Run (Quotes B)
  unfolding ask needs
  cmd_id nick channel =
      needs nick channel (codes " id <id>") (λ args st.
        ask (cmd_data_cb nick channel) (db_id sql st.global channel args) nick channel st)

  unfoldable pub cmd_info : Bytes → Bytes → Option Bytes → Quotes B → Run (Quotes B)
  unfolding ask needs
  cmd_info nick channel = needs nick channel (codes " info <something>") (λ args st.
      ask (cmd_info_cb nick channel) (db_info sql st.global channel args) nick channel st)

  unfoldable pub cmd_like : Bytes → Bytes → Option Bytes → Quotes B → Run (Quotes B)
  unfolding ask needs
  cmd_like nick channel = needs nick channel (codes " like <something>") (λ args st.
      ask (cmd_search_cb nick channel) (db_like sql st.global channel args) nick channel st)

  unfoldable pub cmd_search : Bytes → Bytes → Option Bytes → Quotes B → Run (Quotes B)
  unfolding ask needs
  cmd_search nick channel = needs nick channel (codes " search <something>") (λ args st.
      ask (cmd_search_cb nick channel) (db_search sql st.global channel args) nick channel st)

  unfoldable pub cmd_interval : Bytes → Bytes → Quotes B → Run (Quotes B)
  unfolding ask
  cmd_interval nick channel st =
      ask (cmd_interval_cb nick channel) (db_interval sql channel) nick channel st

  unfoldable pub cmd_random : Bytes → Bytes → Option Bytes → Quotes B → Run (Quotes B)
  unfolding ask pattern_of
  cmd_random nick channel args st =
      ask (cmd_data_cb nick channel) (db_random sql st.global channel (pattern_of args)) nick
        channel st

  unfoldable pub cmd_help : Bytes → Bytes → Quotes B → Run (Quotes B)
  cmd_help nick channel st =
      say nick channel
        (codes "add, count, del, id, info, interval, like, help, memory, random, search, status") st

  unfoldable pub cmd_memory : Bytes → Bytes → Quotes B → Run (Quotes B)
  cmd_memory nick channel st = say nick channel (codes "sql cur/max: " ++ st.memory) st

  unfoldable pub cmd_status : Bytes → Bytes → Quotes B → Run (Quotes B)
  cmd_status nick channel st =
      say nick channel
        (codes "iyell/quotes: "
          ++ (st.version
              ++ (codes ", sqlite: "
                  ++ (sqlite3_libversion ++ (codes ", database: " ++ st.database)))))
        st

  -- The functions of `cmd_tab`.
  unfoldable pub run_command : Command → Bytes → Bytes → Args → Quotes B → Run (Quotes B)
  unfolding cmd_add cmd_count cmd_del cmd_id cmd_info cmd_like cmd_interval cmd_help cmd_memory
      cmd_random cmd_search cmd_status read_args
  run_command Command.add nick channel args st = read_args args >>= λ a. cmd_add nick channel a st
  run_command Command.count nick channel args st = cmd_count nick channel st
  run_command Command.del nick channel args st = read_args args >>= λ a. cmd_del nick channel a st
  run_command Command.id nick channel args st = read_args args >>= λ a. cmd_id nick channel a st
  run_command Command.info nick channel args st = read_args args >>= λ a. cmd_info nick channel a st
  run_command Command.like nick channel args st = read_args args >>= λ a. cmd_like nick channel a st
  run_command Command.interval nick channel args st = cmd_interval nick channel st
  run_command Command.help nick channel args st = cmd_help nick channel st
  run_command Command.memory nick channel args st = cmd_memory nick channel st
  run_command Command.random nick channel args st =
      read_args args >>= λ a. cmd_random nick channel a st
  run_command Command.search nick channel args st =
      read_args args >>= λ a. cmd_search nick channel a st
  run_command Command.status nick channel args st = cmd_status nick channel st

  unfoldable pub run_found : Option Command → Request → Quotes B → Run (Quotes B)
  unfolding run_command
  run_found none r st = ok st
  run_found (some fp) r st = run_command fp r.nick r.channel r.args st

  -- One line: `cmd_parse` up to its label `next`.
  unfoldable pub run_line : Args → Bytes → Quotes B → Run (Quotes B)
  unfolding run_found
  run_line old line st = elim (cmd_parse old line) [
    | none ↦ ok st
    | some r ↦ run_found (cmd_switch r.cmd) r st
  ]

  -- The loop of `cmd_parse`, on `args`, a line and what the buffer holds behind it.
  unfoldable pub run_lines : ℕ → Args → Bytes → Quotes B → B → Run (Quotes B × B)
  unfolding run_line
  run_lines zero old line st in' = fault exhausted
  run_lines (suc fuel) old line st in' = run_line old line st >>= λ st'.
      elim (evbuffer_length in') [
        | zero ↦ ok (st', in')
        | suc _ ↦ elim (evbuffer_readline in').0 [
          | none ↦ ok (st', (evbuffer_readline in').1)
          | some line' ↦
              run_lines fuel (args_behind old (cmd_parse old line)) line' st'
                (evbuffer_readline in').1
        ]
      ]

  -- `io_read`, on what `read` answers; `none` and nothing end the reading.
  unfoldable pub io_read : Option Bytes → Quotes B → B → Run (Quotes B × B)
  unfolding run_lines
  io_read none st in' = ok (st, in')
  io_read (some []) st in' = ok (st, in')
  io_read (some (c ∷ tmp)) st in' =
      let b = evbuffer_add in' (c ∷ tmp) in
      let next = evbuffer_readline b in
      elim next.0 [
        | none ↦ ok (st, next.1)
        | some line ↦ run_lines (evbuffer_length b) no_args line st next.1
      ]
