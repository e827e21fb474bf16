-- ===== src/Quotes/Db.antt =====
-- src/quotes/db.c: the queries. SQLite is a parameter, with what its documentation says of `%q` in
-- `sqlite3_mprintf` as laws.
use iyell.Base.{ℕ, Bool, true, false, List, [], ◌∷◌, ◌++◌, Option, ◌≡◌, ◌==◌, if◌then◌else◌}
use iyell.CString.{Bytes, codes, contains}

-- Each quote twice.
abbrev pub doubled : Bytes → Bytes
doubled [] = []
doubled (c ∷ s) = (if c == 0x27 then 0x27 ∷ 0x27 ∷ [] else c ∷ []) ++ doubled s

-- A row of an answer: its columns, `none` for NULL.
abbrev pub Row : Type 0
Row = List (Option Bytes)

-- `sqlite3_exec` is told the queries so far, which stand for the database, and answers the rows for
-- the callback and the message of an error.
pub record Sqlite : Type 0 where
  pub sqlite3_mprintf : Bytes → List Bytes → Bytes
  pub sqlite3_exec : List Bytes → Bytes → List Row × Option Bytes
  pub sqlite3_last_insert_rowid : List Bytes → ℕ
  pub sqlite3_libversion : Bytes
  pub mprintf-q :
      (t f a : Bytes) (args : List Bytes)
      → contains b'%' t ≡ false
      → sqlite3_mprintf (t ++ (b'%' ∷ b'q' ∷ f)) (a ∷ args)
        ≡ t ++ (doubled a ++ sqlite3_mprintf f args)
  pub mprintf-text : (t : Bytes) → contains b'%' t ≡ false → sqlite3_mprintf t [] ≡ t

abbrev pub db_add_format : Bytes
db_add_format = codes "INSERT INTO quotes VALUES('%q', datetime('now','localtime'), '%q', '%q')"

abbrev pub db_cfg_random : Bytes
db_cfg_random = codes "SELECT value, num FROM config"

abbrev pub db_del_format : Bytes
db_del_format =
    codes "SELECT data FROM quotes WHERE rowid = '%q'; DELETE FROM quotes WHERE rowid = '%q'"

abbrev pub db_del_c : Bytes
db_del_c =
    codes "SELECT data FROM quotes WHERE rowid = '%q' AND channel = '%q'; "
    ++ codes "DELETE FROM quotes WHERE rowid = '%q' AND channel = '%q';"

abbrev pub db_count : Bytes
db_count = codes "SELECT COUNT('data') FROM quotes"

abbrev pub db_count_c : Bytes
db_count_c = db_count ++ codes " WHERE channel = '%q'"

abbrev pub db_id_format : Bytes
db_id_format = codes "SELECT data FROM quotes WHERE rowid = '%q'"

abbrev pub db_id_c : Bytes
db_id_c = db_id_format ++ codes " AND channel = '%q'"

abbrev pub db_info_format : Bytes
db_info_format = codes "SELECT rowid, time, nick, channel FROM quotes WHERE rowid = '%q' LIMIT 1"

abbrev pub db_info_c : Bytes
db_info_c =
    codes
      "SELECT rowid, time, nick, channel FROM quotes WHERE rowid = '%q' AND channel = '%q' LIMIT 1"

abbrev pub db_interval_format : Bytes
db_interval_format =
    codes "SELECT count(num), num FROM config WHERE setting = 'random' AND value = '%q'"

abbrev pub db_like_format : Bytes
db_like_format = codes "SELECT data, rowid, COUNT(rowid) FROM quotes WHERE data LIKE '%q' LIMIT 1"

abbrev pub db_like_c : Bytes
db_like_c =
    codes "SELECT data, rowid, COUNT(rowid) FROM quotes "
    ++ codes "WHERE data LIKE '%q' AND channel = '%q' LIMIT 1"

abbrev pub db_random_format : Bytes
db_random_format = codes "SELECT data FROM quotes WHERE data GLOB '%q' ORDER BY RANDOM() LIMIT 1"

abbrev pub db_random_c : Bytes
db_random_c =
    codes "SELECT data FROM quotes WHERE data GLOB '%q' AND channel = '%q' "
    ++ codes "ORDER BY RANDOM() LIMIT 1"

abbrev pub db_search_format : Bytes
db_search_format = codes "SELECT data, rowid, COUNT(rowid) FROM quotes WHERE data GLOB '%q' LIMIT 1"

abbrev pub db_search_c : Bytes
db_search_c =
    codes "SELECT data, rowid, COUNT(rowid) FROM quotes "
    ++ codes "WHERE data GLOB '%q' AND channel = '%q' LIMIT 1"

-- The text that each function hands to `sqlite3_exec`, with `g_mode & GLOBAL`.
module _ (sql : Sqlite) where
  open sql use {sqlite3_mprintf}

  unfoldable pub db_add : Bytes → Bytes → Bytes → Bytes
  db_add nick channel args = sqlite3_mprintf db_add_format (args ∷ nick ∷ channel ∷ [])

  unfoldable pub db_count_quotes : Bool → Bytes → Bytes
  db_count_quotes true channel = db_count
  db_count_quotes false channel = sqlite3_mprintf db_count_c (channel ∷ [])

  unfoldable pub db_del : Bool → Bytes → Bytes → Bytes
  db_del true channel args = sqlite3_mprintf db_del_format (args ∷ args ∷ [])
  db_del false channel args = sqlite3_mprintf db_del_c (args ∷ channel ∷ args ∷ channel ∷ [])

  unfoldable pub db_id : Bool → Bytes → Bytes → Bytes
  db_id true channel args = sqlite3_mprintf db_id_format (args ∷ [])
  db_id false channel args = sqlite3_mprintf db_id_c (args ∷ channel ∷ [])

  unfoldable pub db_info : Bool → Bytes → Bytes → Bytes
  db_info true channel args = sqlite3_mprintf db_info_format (args ∷ [])
  db_info false channel args = sqlite3_mprintf db_info_c (args ∷ channel ∷ [])

  unfoldable pub db_interval : Bytes → Bytes
  db_interval args = sqlite3_mprintf db_interval_format (args ∷ [])

  unfoldable pub db_like : Bool → Bytes → Bytes → Bytes
  db_like true channel args = sqlite3_mprintf db_like_format (args ∷ [])
  db_like false channel args = sqlite3_mprintf db_like_c (args ∷ channel ∷ [])

  unfoldable pub db_random : Bool → Bytes → Bytes → Bytes
  db_random true channel args = sqlite3_mprintf db_random_format (args ∷ [])
  db_random false channel args = sqlite3_mprintf db_random_c (args ∷ channel ∷ [])

  unfoldable pub db_search : Bool → Bytes → Bytes → Bytes
  db_search true channel args = sqlite3_mprintf db_search_format (args ∷ [])
  db_search false channel args = sqlite3_mprintf db_search_c (args ∷ channel ∷ [])
