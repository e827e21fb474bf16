-- ===== src/Tests/Searches.antt =====
-- The program `quotes` on an example, with a database that has one answer.
use iyell.Base.{
  Bool, true, false, ok, fault, use_after_free, List, [], ◌∷◌, ◌++◌, none, some, ◌≡◌, refl, ap,
  arith, if◌then◌else◌, ◌==◌,
}
use iyell.CString.{Bytes, split, str_eq, codes, contains}
use iyell.Event.{evbuffer_length}
use iyell.Hooks.{join_words, hooks_send, hooks_parse_cmd}
use iyell.Irc.Lines.{privmsg_line}
use iyell.Quotes.{freed, no_args, no_source, cmd_switch, cmd_parse, cmd_tab, find_command, Command}
use iyell.Quotes.Stale.{uses_args, run_lines-stale}
use iyell.Quotes.Wire.{hook_line}
use iyell.Quotes.Db.{Sqlite, doubled}
use iyell.Quotes.Formats.{meant}
use iyell.Quotes.Literals.{symbols}
use iyell.Quotes.Queries.{Query, query, pieces, ending, query-Literals}
use iyell.Quotes.Replies.{Quotes, say}
use iyell.Quotes.RoundTrip.{addressed, search-RoundTrip}
use iyell.Quotes.Run.{run_line, run_lines, run_found, run_command, cmd_help}
use iyell.Tests.Buffer.{list_buffer, readline}

-- The flag says that a percent sign was read.
pub mprintf : Bool → Bytes → List Bytes → Bytes
mprintf percent [] args = []
mprintf true (c ∷ f) [] = mprintf false f []
mprintf true (c ∷ f) (a ∷ args) = doubled a ++ mprintf false f args
mprintf false (c ∷ f) args =
    let plain = mprintf false f args in
    let conversion = mprintf true f args in if c == b'%' then conversion else c ∷ plain

pub mprintf-q :
    (t f a : Bytes) (args : List Bytes)
    → contains b'%' t ≡ false
    → mprintf false (t ++ (b'%' ∷ b'q' ∷ f)) (a ∷ args) ≡ t ++ (doubled a ++ mprintf false f args)
unfolding mprintf contains
mprintf-q [] f a args h = refl
mprintf-q (c ∷ t) f a args h =
    let plain : (c == b'%') ≡ false = ground (arith, h) in
    rw plain (ap (◌∷◌ c) (mprintf-q t f a args (ground (arith, h))))

pub mprintf-text : (t : Bytes) → contains b'%' t ≡ false → mprintf false t [] ≡ t
unfolding mprintf contains
mprintf-text [] h = refl
mprintf-text (c ∷ t) h =
    let plain : (c == b'%') ≡ false = ground (arith, h) in
    rw plain (ap (◌∷◌ c) (mprintf-text t (ground (arith, h))))

abbrev pub sql : Sqlite
sql = record {
  sqlite3_mprintf = mprintf false;
  sqlite3_exec =
      λ queries q. ((some (codes "hello") ∷ some (codes "7") ∷ some (codes "1") ∷ []) ∷ [], none);
  sqlite3_last_insert_rowid = λ queries. 7;
  sqlite3_libversion = codes "3";
  mprintf-q = mprintf-q;
  mprintf-text = mprintf-text;
}

abbrev quotes : Quotes Bytes
quotes = record {
  out = [];
  writing = false;
  strip = true;
  global = false;
  name = codes "quotes";
  database = codes "quotes.db";
  version = codes "1";
  memory = codes "1 KiB/2 KiB";
  queries = [];
}

-- A pattern that would end its literal.
query-Literals_example :
    symbols (query sql false Query.search (codes "joe") (codes "#a") (codes "*' OR '1"))
    ≡ meant
        (pieces false Query.search (codes "joe") (codes "#a") (codes "*' OR '1"))
        (ending false Query.search)
query-Literals_example =
    query-Literals sql false Query.search (codes "joe") (codes "#a") (codes "*' OR '1")

search-RoundTrip_example :
    (line : Bytes) × (hooks_send
        (codes "quote" ∷ codes "search" ∷ codes "*hi*" ∷ [])
        (codes "joe!j@h")
        (some (codes "#a"))
      ≡ line ++ codes "\n")
    × (st' : Quotes Bytes) × (run_line sql freed line quotes ≡ ok st')
    × (reply : Bytes) × (st'.out ≡ reply ++ codes "\n")
    × (st'.writing ≡ true)
    × (out' : Bytes) × (hooks_parse_cmd reply [] ≡ (true, out'))
    × (out'
        ≡ []
          ++ privmsg_line
              (codes "#a")
              (addressed true (codes "joe!j@h") (codes "hello" ++ (codes " id: " ++ codes "7"))))
unfolding contains
search-RoundTrip_example =
    search-RoundTrip sql (codes "quote") (codes "*hi*") [] b'j' b'#' b'h' (codes "oe!j@h")
      (codes "a") (codes "ello") (codes "7") freed quotes []
      (
        record { solid = refl; filled = λ e. cc },
        (
          record { solid = refl; filled = λ e. cc },
          (record { solid = refl; filled = λ e. cc }, tt),
        ),
      )
      refl refl refl refl refl refl

-- A user asks for help on a word, and another one searches for nothing.
abbrev help_line : Bytes
help_line =
    hook_line (codes "quote" ∷ codes "help" ∷ codes "add" ∷ []) (codes "joe!j@h") (codes "#a")

abbrev bare_search : Bytes
bare_search = hook_line (codes "quote" ∷ codes "search" ∷ []) (codes "al!a@h") (codes "#a")

abbrev helped : Quotes Bytes
helped = elim (run_line sql no_args help_line quotes) [ ok st ↦ st | fault f ↦ quotes ]

run_lines-stale_example :
    run_lines sql 2 no_args help_line quotes (bare_search ++ codes "\n") ≡ fault use_after_free
unfolding contains no_source cmd_switch uses_args run_line hook_line readline split cmd_parse
    cmd_tab find_command str_eq run_found run_command cmd_help say join_words evbuffer_length
run_lines-stale_example =
    run_lines-stale sql 0 22 no_args (codes "quote") (codes "help") (codes "add") []
      (codes "joe!j@h") (codes "#a") (codes "quote") (codes "search") (codes "al!a@h") (codes "#a")
      Command.search quotes helped (bare_search ++ codes "\n")
      (
        record { solid = refl; filled = λ e. cc },
        (
          record { solid = refl; filled = λ e. cc },
          (record { solid = refl; filled = λ e. cc }, tt),
        ),
      )
      (refl, refl, refl)
      (record { solid = refl; filled = λ e. cc }, (record { solid = refl; filled = λ e. cc }, tt))
      (refl, refl, refl) refl refl refl refl refl
