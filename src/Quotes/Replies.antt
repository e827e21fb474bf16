-- ===== src/Quotes/Replies.antt =====
-- src/quotes/cmd.c and src/quotes/io.c: what the commands of `quotes` answer, from the request to
-- the output buffer.
use iyell.Base.{
  ℕ, zero, suc, Bool, true, false, Run, ok, fault, assertion, null_pointer, bad_format, List, [],
  ◌∷◌, ◌++◌, Option, none, some, ◌==◌, if◌then◌else◌, length,
}
use iyell.Base.Int.{ℤ, pos, negsuc}
use iyell.CString.{Bytes, codes, split}
use iyell.Event.{EvBuffer, evbuffer_length}
use iyell.Number.{strtol}
use iyell.Quotes.Db.{Row}

-- The program `quotes`: its output buffer and whether it waits to write it, the flags `STRIP` and
-- `GLOBAL`, `g_name`, the base name of the database, the version of the build, what `%hi %s/%hi %s`
-- prints of the memory, and the queries so far, the last one at the end.
pub record Quotes (B : Type 0) : Type 0 where
  pub out : B
  pub writing : Bool
  pub strip : Bool
  pub global : Bool
  pub name : Bytes
  pub database : Bytes
  pub version : Bytes
  pub memory : Bytes
  pub queries : List Bytes

-- `argv[i] ? argv[i] : "n/a"`
unfoldable pub or_na : Option Bytes → Bytes
or_na none = codes "n/a"
or_na (some s) = s

-- The name in front of `!`; `NULL` stays `NULL`.
unfoldable pub cmd_dup_nick : Option Bytes → Option Bytes
cmd_dup_nick none = none
cmd_dup_nick (some str) = some (split (codes "!") str).0

unfoldable pub is_long : ℕ → ℤ → Bool
is_long n (pos m) = m == n
is_long n (negsuc m) = false

-- What the callback of `cmd_search` and `cmd_like` says of a row, by the number of results.
unfoldable pub search_text : Option Bytes → Option Bytes → Bytes → Bytes
unfolding or_na is_long
search_text data' rowid count =
    if is_long 0 (strtol count)
    then codes "nothing found"
    else if is_long 1 (strtol count)
    then or_na data' ++ (codes " id: " ++ or_na rowid)
    else or_na data'
      ++ (codes " id: " ++ (or_na rowid ++ (codes ", " ++ (count ++ codes " results"))))

module _ {B : Type 0} ⦃ev : EvBuffer B⦄ where
  open ev use {evbuffer_add, evbuffer_drain}

  -- The nickname is taken from the front of the buffer.
  unfoldable pub io_strip_nick : Bytes → Bytes → B → B
  io_strip_nick nick [] out = out
  io_strip_nick nick (c ∷ channel) out = evbuffer_drain out (length nick)

  unfoldable pub io_toggle_write : Quotes B → Run (Quotes B)
  io_toggle_write st = elim (evbuffer_length st.out) [
    | zero ↦ fault assertion
    | suc _ ↦ ok (record st { writing = true })
  ]

  unfoldable pub cmd_toggle_write : Bytes → Bytes → Quotes B → Run (Quotes B)
  unfolding io_strip_nick io_toggle_write
  cmd_toggle_write nick channel st =
      io_toggle_write
        (if st.strip then record st { out = io_strip_nick nick channel st.out } else st)

  -- `"%s:%s:…\n"`
  unfoldable pub print : Bytes → Bytes → Bytes → Quotes B → Quotes B
  print nick channel text st = record st {
    out =
        evbuffer_add st.out
          (nick ++ (codes ":" ++ (channel ++ (codes ":" ++ (text ++ codes "\n")))));
  }

  unfoldable pub say : Bytes → Bytes → Bytes → Quotes B → Run (Quotes B)
  unfolding print cmd_toggle_write
  say nick channel text st = cmd_toggle_write nick channel (print nick channel text st)

  -- The callbacks, which `sqlite3_exec` calls for each row.
  unfoldable pub cmd_count_cb : Bytes → Bytes → Row → Quotes B → Run (Quotes B)
  unfolding say or_na
  cmd_count_cb nick channel (total ∷ []) st =
      say nick channel (codes "total quotes in database: " ++ or_na total) st
  cmd_count_cb nick channel [] st = ok st
  cmd_count_cb nick channel (a ∷ b ∷ row) st = ok st

  unfoldable pub cmd_del_cb : Bytes → Bytes → Row → Quotes B → Run (Quotes B)
  unfolding say or_na
  cmd_del_cb nick channel (data' ∷ []) st =
      say nick channel (codes "quote deleted successfully (" ++ (or_na data' ++ codes ")")) st
  cmd_del_cb nick channel [] st = ok st
  cmd_del_cb nick channel (a ∷ b ∷ row) st = ok st

  -- The format of an action has a `%P`.
  data_text : Bytes → Bytes → Option Bytes → Quotes B → Run (Quotes B)
  unfolding say or_na
  data_text nick channel none st = say nick channel (codes "n/a") st
  data_text nick channel (some []) st = say nick channel [] st
  data_text nick channel (some (c ∷ s)) st =
      if c == b'+' then fault bad_format else say nick channel (c ∷ s) st

  unfoldable pub cmd_data_cb : Bytes → Bytes → Row → Quotes B → Run (Quotes B)
  unfolding data_text
  cmd_data_cb nick channel (data' ∷ []) st = data_text nick channel data' st
  cmd_data_cb nick channel [] st = ok st
  cmd_data_cb nick channel (a ∷ b ∷ row) st = ok st

  -- A row that is too short is answered without a wish to write.
  unfoldable pub cmd_info_cb : Bytes → Bytes → Row → Quotes B → Run (Quotes B)
  unfolding say or_na cmd_dup_nick print
  cmd_info_cb nick channel (rowid ∷ time ∷ who ∷ where' ∷ row) st =
      say nick channel
        (codes "quote id "
          ++ (or_na rowid
              ++ (codes " added on "
                  ++ (or_na where'
                      ++ (codes " by "
                          ++ (or_na (cmd_dup_nick who) ++ (codes ", at " ++ or_na time)))))))
        st
  cmd_info_cb nick channel _ st = ok (print nick channel (codes "nothing found") st)

  unfoldable pub cmd_interval_cb : Bytes → Bytes → Row → Quotes B → Run (Quotes B)
  unfolding say
  cmd_interval_cb nick channel (count ∷ some num ∷ row) st =
      say nick channel (codes "interval for this channel is " ++ (num ++ codes " second(s)")) st
  cmd_interval_cb nick channel (count ∷ none ∷ row) st =
      say nick channel (codes "no interval is set for this channel") st
  cmd_interval_cb nick channel (count ∷ []) st = ok st
  cmd_interval_cb nick channel [] st = ok st

  -- A number of results that is NULL is read all the same.
  unfoldable pub cmd_search_cb : Bytes → Bytes → Row → Quotes B → Run (Quotes B)
  unfolding say search_text
  cmd_search_cb nick channel (data' ∷ rowid ∷ some count ∷ []) st =
      say nick channel (search_text data' rowid count) st
  cmd_search_cb nick channel (data' ∷ rowid ∷ none ∷ []) st = fault null_pointer
  cmd_search_cb nick channel _ st = ok st
