-- ===== src/Quotes/RoundTrip.antt =====
-- A search for a quote, from the words of a user in a channel through src/iyelld/hooks.c to the
-- program of src/quotes and back to the channel.
use iyell.Base.{
  ℕ, Bool, true, false, ok, List, [], ◌∷◌, ◌++◌, Option, none, some, ◌≡◌, refl, sym, ◌∙◌, ap, ◌==◌,
  if◌then◌else◌, All,
}
use iyell.CString.{Bytes, codes, contains, str_eq}
use iyell.Event.{EvBuffer}
use iyell.Hooks.{hooks_send, join_words, hooks_parse_cmd, strip_mask, or_nothing}
use iyell.Irc.Lines.{privmsg_line}
use iyell.Number.{strtol}
use iyell.Quotes.{
  Args, args_at, kept, Request, cmd_parse, cmd_switch, find_command, cmd_tab, no_source,
}
use iyell.Quotes.Answer.{reply_line, say-answer, hooks_parse_cmd-answer, hooks_parse_cmd-stripped}
use iyell.Quotes.Db.{Sqlite, db_search}
use iyell.Quotes.Replies.{Quotes, say, cmd_search_cb, search_text, or_na, is_long}
use iyell.Quotes.Run.{
  read_args, each_row, on_error, ask, cmd_search, run_line, run_found, run_command,
}
use iyell.Quotes.Wire.{IsWord, command_of, cmd_parse-hooks_send, join_words-filled}

-- What the channel gets to read.
abbrev pub addressed : Bool → Bytes → Bytes → Bytes
addressed true nick text = text
addressed false nick text = strip_mask nick ++ (codes ": " ++ text)

module _ {B : Type 0} ⦃ev : EvBuffer B⦄ (sql : Sqlite) where
  open ev use {evbuffer_data}
  open sql use {sqlite3_exec}

  run_line-search :
      (old : Args) (line nick channel args : Bytes) (c : ℕ) (st : Quotes B)
      → cmd_parse old line
        ≡ some (record {
          nick = nick;
          channel = channel;
          cmd = codes "search";
          args = args_at (c ∷ args);
        })
      → run_line sql old line st
        ≡ ask sql
            (cmd_search_cb nick channel)
            (db_search sql st.global channel (c ∷ args))
            nick
            channel
            st
  unfolding run_line run_found run_command read_args cmd_search cmd_switch find_command cmd_tab
      str_eq
  run_line-search old line nick channel args c st parsed = rw (parsed, run_line) refl

  -- The answer is one row, for the only result.
  ask-one :
      (query nick channel data' rowid : Bytes) (st st' : Quotes B)
      → sqlite3_exec st.queries query
        ≡ ((some data' ∷ some rowid ∷ some (codes "1") ∷ []) ∷ [], none)
      → say nick channel
          (data' ++ (codes " id: " ++ rowid))
          (record st { queries = st.queries ++ (query ∷ []) })
        ≡ ok st'
      → ask sql (cmd_search_cb nick channel) query nick channel st ≡ ok st'
  unfolding ask each_row on_error cmd_search_cb search_text or_na is_long strtol
  ask-one query nick channel data' rowid st st' answers said = rw (answers, ask) rw said refl

  hooks_parse_cmd-either :
      (strip : Bool) (n k x : ℕ) (nick channel text : Bytes) (out : B)
      → contains b':' (n ∷ nick) ≡ false
      → contains b':' (k ∷ channel) ≡ false
      → (n == 1) ≡ false
      → (n == b'!') ≡ false
      → (out' : B) × (hooks_parse_cmd
            (reply_line (if strip then [] else n ∷ nick) (k ∷ channel) (x ∷ text))
            out
          ≡ (true, out'))
        × (evbuffer_data out'
            ≡ evbuffer_data out
              ++ privmsg_line (k ∷ channel) (addressed strip (n ∷ nick) (x ∷ text)))
  hooks_parse_cmd-either true n k x nick channel text out no_colon no_colon' raw mask =
      hooks_parse_cmd-stripped k x channel text out no_colon'
  hooks_parse_cmd-either false n k x nick channel text out no_colon no_colon' raw mask =
      hooks_parse_cmd-answer n k x nick channel text out no_colon no_colon' raw mask

  -- A user's `search` with a pattern of one word or more, in a channel: the line that the bot writes
  -- to the hook, without its newline, makes the program ask SQLite for the pattern, whatever `args`
  -- held before, and when there is one result, which is not empty, the line that it answers into its
  -- empty output makes the bot say the quote and its number in the channel, behind the nickname
  -- unless the program strips it. The words are not empty and hold no spaces, the mask of the user
  -- and the channel are not empty and hold no colons, and the mask does not begin with a byte 1 or
  -- an exclamation mark.
  pub search-RoundTrip :
      (name w : Bytes) (words : List Bytes) (n k x : ℕ) (who chan data' rowid : Bytes)
      → (old : Args) (st : Quotes B) (out : B) → All IsWord (name ∷ codes "search" ∷ w ∷ words)
      → contains b':' (n ∷ who) ≡ false
      → contains b':' (k ∷ chan) ≡ false
      → (n == 1) ≡ false
      → (n == b'!') ≡ false
      → evbuffer_data st.out ≡ []
      → (let query = db_search sql st.global (k ∷ chan) (join_words (w ∷ words)) in
          sqlite3_exec st.queries query
          ≡ ((some (x ∷ data') ∷ some rowid ∷ some (codes "1") ∷ []) ∷ [], none))
      → (line : Bytes) × (hooks_send (name ∷ codes "search" ∷ w ∷ words) (n ∷ who) (some (k ∷ chan))
          ≡ line ++ codes "\n")
        × (st' : Quotes B) × (run_line sql old line st ≡ ok st')
        × (reply : Bytes) × (evbuffer_data st'.out ≡ reply ++ codes "\n")
        × (st'.writing ≡ true)
        × (out' : B) × (hooks_parse_cmd reply out ≡ (true, out'))
        × (evbuffer_data out'
            ≡ evbuffer_data out
              ++ privmsg_line
                  (k ∷ chan)
                  (addressed st.strip (n ∷ who) ((x ∷ data') ++ (codes " id: " ++ rowid))))
  unfolding no_source or_nothing command_of kept
  search-RoundTrip name w words n k x who chan data' rowid old st out solid no_colon no_colon' raw
        mask empty answers =
      let argv = name ∷ codes "search" ∷ w ∷ words in
      let (line, sent, parsed) =
        cmd_parse-hooks_send old argv (n ∷ who) (some (k ∷ chan)) solid (λ e. cc) no_colon no_colon'
          refl in
      let (c, args, is) = join_words-filled (w ∷ words) solid.1.1 (λ e. cc) in
      let query = db_search sql st.global (k ∷ chan) (join_words (w ∷ words)) in
      let asked = record st { queries = st.queries ++ (query ∷ []) } in
      let text = data' ++ (codes " id: " ++ rowid) in
      let (st', said, reply_is, writing, same) =
        say-answer (n ∷ who) chan (x ∷ text) k asked empty in
      let (out', read, output) =
        hooks_parse_cmd-either st.strip n k x who chan text out no_colon no_colon' raw mask in
      let request : Bytes → Option Request = λ a.
        some
          (record { nick = n ∷ who; channel = k ∷ chan; cmd = codes "search"; args = args_at a }) in
      let run : run_line sql old line st ≡ ok st' =
        run_line-search old line (n ∷ who) (k ∷ chan) args c st (parsed ∙ ap request is)
        ∙ ap
            (λ a.
              ask sql (cmd_search_cb (n ∷ who) (k ∷ chan)) (db_search sql st.global (k ∷ chan) a)
                (n ∷ who) (k ∷ chan) st)
            (sym is)
        ∙ ask-one query (n ∷ who) (k ∷ chan) (x ∷ data') rowid st st' answers said in
      (line, sent, st', run, _, reply_is, writing, out', read, output)
