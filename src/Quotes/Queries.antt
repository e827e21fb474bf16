-- ===== src/Quotes/Queries.antt =====
-- What the queries of src/quotes/db.c ask: their text as SQL reads it.
use iyell.Base.{Bool, true, false, List, [], ◌∷◌, ◌≡◌, refl, arith}
use iyell.CString.{Bytes, codes, contains}
use iyell.Quotes.Db.{
  Sqlite, db_add, db_count_quotes, db_del, db_id, db_info, db_interval, db_like, db_random,
  db_search,
}
use iyell.Quotes.Formats.{Piece, asks, fixed, meant, symbols-mprintf, symbols-format}
use iyell.Quotes.Literals.{symbols}

-- The query of each command, with the nickname, the channel and the argument that it is given.
pub data Query : Type 0 where
  add count del id info interval like random search : Query

unfoldable pub query : Sqlite → Bool → Query → Bytes → Bytes → Bytes → Bytes
query sql global add nick channel args = db_add sql nick channel args
query sql global count nick channel args = db_count_quotes sql global channel
query sql global del nick channel args = db_del sql global channel args
query sql global id nick channel args = db_id sql global channel args
query sql global info nick channel args = db_info sql global channel args
query sql global interval nick channel args = db_interval sql channel
query sql global like nick channel args = db_like sql global channel args
query sql global random nick channel args = db_random sql global channel args
query sql global search nick channel args = db_search sql global channel args

-- The condition that keeps to the quotes of the channel, when they are not for all channels.
abbrev pub of_channel : Bool → Bytes → List Piece
of_channel true channel = []
of_channel false channel = asks (codes " AND channel = ") channel ∷ []

-- The texts between the literals, and the literals: what each query has to ask.
abbrev pub pieces : Bool → Query → Bytes → Bytes → Bytes → List Piece
pieces global add nick channel args =
    asks (codes "INSERT INTO quotes VALUES(") args
    ∷ fixed (codes ", datetime(") (codes "now")
    ∷ fixed (codes ",") (codes "localtime")
    ∷ asks (codes "), ") nick
    ∷ asks (codes ", ") channel
    ∷ []
pieces true count nick channel args = fixed (codes "SELECT COUNT(") (codes "data") ∷ []
pieces false count nick channel args =
    fixed (codes "SELECT COUNT(") (codes "data")
    ∷ asks (codes ") FROM quotes WHERE channel = ") channel
    ∷ []
pieces true del nick channel args =
    asks (codes "SELECT data FROM quotes WHERE rowid = ") args
    ∷ asks (codes "; DELETE FROM quotes WHERE rowid = ") args
    ∷ []
pieces false del nick channel args =
    asks (codes "SELECT data FROM quotes WHERE rowid = ") args
    ∷ asks (codes " AND channel = ") channel
    ∷ asks (codes "; DELETE FROM quotes WHERE rowid = ") args
    ∷ asks (codes " AND channel = ") channel
    ∷ []
pieces global id nick channel args =
    asks (codes "SELECT data FROM quotes WHERE rowid = ") args ∷ of_channel global channel
pieces global info nick channel args =
    asks (codes "SELECT rowid, time, nick, channel FROM quotes WHERE rowid = ") args
    ∷ of_channel global channel
pieces global interval nick channel args =
    fixed (codes "SELECT count(num), num FROM config WHERE setting = ") (codes "random")
    ∷ asks (codes " AND value = ") channel
    ∷ []
pieces global like nick channel args =
    asks (codes "SELECT data, rowid, COUNT(rowid) FROM quotes WHERE data LIKE ") args
    ∷ of_channel global channel
pieces global random nick channel args =
    asks (codes "SELECT data FROM quotes WHERE data GLOB ") args ∷ of_channel global channel
pieces global search nick channel args =
    asks (codes "SELECT data, rowid, COUNT(rowid) FROM quotes WHERE data GLOB ") args
    ∷ of_channel global channel

abbrev pub ending : Bool → Query → Bytes
ending global add = codes ")"
ending true count = codes ") FROM quotes"
ending false count = []
ending true del = []
ending false del = codes ";"
ending global id = []
ending global info = codes " LIMIT 1"
ending global interval = []
ending global like = codes " LIMIT 1"
ending global random = codes " ORDER BY RANDOM() LIMIT 1"
ending global search = codes " LIMIT 1"

-- Each query, read by SQL, has the texts of its command and the literals that the user gave, byte
-- for byte: no argument, whatever it holds, ends its literal or adds to the text. Without the
-- option for global quotes, the queries on quotes keep to the channel.
pub query-Literals :
    (sql : Sqlite) (global : Bool) (q : Query) (nick channel args : Bytes)
    → symbols (query sql global q nick channel args)
      ≡ meant (pieces global q nick channel args) (ending global q)
unfolding query db_add db_count_quotes db_del db_id db_info db_interval db_like db_random db_search
    contains
query-Literals sql global add nick channel args =
    symbols-mprintf sql (pieces global add nick channel args) (ending global add) (
      refl,
      (
        refl,
        (
          omega arith,
          (
            refl,
            (
              refl,
              (
                refl,
                (
                  refl,
                  (
                    omega arith,
                    (
                      refl,
                      (
                        refl,
                        (
                          refl,
                          (
                            refl,
                            (
                              omega arith,
                              (
                                refl,
                                (
                                  refl,
                                  (
                                    refl,
                                    (
                                      refl,
                                      (
                                        omega arith,
                                        (
                                          refl,
                                          (
                                            refl,
                                            (
                                              refl,
                                              (refl, (omega arith, (refl, (refl, (refl, refl))))),
                                            ),
                                          ),
                                        ),
                                      ),
                                    ),
                                  ),
                                ),
                              ),
                            ),
                          ),
                        ),
                      ),
                    ),
                  ),
                ),
              ),
            ),
          ),
        ),
      ),
    )
query-Literals sql true count nick channel args =
    symbols-format (pieces true count nick channel args) (ending true count)
      (refl, (refl, (omega arith, (refl, (refl, (refl, refl)))))) tt
query-Literals sql false count nick channel args =
    symbols-mprintf sql (pieces false count nick channel args) (ending false count) (
      refl,
      (
        refl,
        (omega arith, (refl, (refl, (refl, (refl, (omega arith, (refl, (refl, (refl, refl))))))))),
      ),
    )
query-Literals sql true del nick channel args =
    symbols-mprintf sql (pieces true del nick channel args) (ending true del) (
      refl,
      (
        refl,
        (omega arith, (refl, (refl, (refl, (refl, (omega arith, (refl, (refl, (refl, refl))))))))),
      ),
    )
query-Literals sql false del nick channel args =
    symbols-mprintf sql (pieces false del nick channel args) (ending false del) (
      refl,
      (
        refl,
        (
          omega arith,
          (
            refl,
            (
              refl,
              (
                refl,
                (
                  refl,
                  (
                    omega arith,
                    (
                      refl,
                      (
                        refl,
                        (
                          refl,
                          (
                            refl,
                            (
                              omega arith,
                              (
                                refl,
                                (refl, (refl, (refl, (omega arith, (refl, (refl, (refl, refl))))))),
                              ),
                            ),
                          ),
                        ),
                      ),
                    ),
                  ),
                ),
              ),
            ),
          ),
        ),
      ),
    )
query-Literals sql true id nick channel args =
    symbols-mprintf sql (pieces true id nick channel args) (ending true id)
      (refl, (refl, (omega arith, (refl, (refl, (refl, refl))))))
query-Literals sql false id nick channel args =
    symbols-mprintf sql (pieces false id nick channel args) (ending false id) (
      refl,
      (
        refl,
        (omega arith, (refl, (refl, (refl, (refl, (omega arith, (refl, (refl, (refl, refl))))))))),
      ),
    )
query-Literals sql true info nick channel args =
    symbols-mprintf sql (pieces true info nick channel args) (ending true info)
      (refl, (refl, (omega arith, (refl, (refl, (refl, refl))))))
query-Literals sql false info nick channel args =
    symbols-mprintf sql (pieces false info nick channel args) (ending false info) (
      refl,
      (
        refl,
        (omega arith, (refl, (refl, (refl, (refl, (omega arith, (refl, (refl, (refl, refl))))))))),
      ),
    )
query-Literals sql true like nick channel args =
    symbols-mprintf sql (pieces true like nick channel args) (ending true like)
      (refl, (refl, (omega arith, (refl, (refl, (refl, refl))))))
query-Literals sql false like nick channel args =
    symbols-mprintf sql (pieces false like nick channel args) (ending false like) (
      refl,
      (
        refl,
        (omega arith, (refl, (refl, (refl, (refl, (omega arith, (refl, (refl, (refl, refl))))))))),
      ),
    )
query-Literals sql true random nick channel args =
    symbols-mprintf sql (pieces true random nick channel args) (ending true random)
      (refl, (refl, (omega arith, (refl, (refl, (refl, refl))))))
query-Literals sql false random nick channel args =
    symbols-mprintf sql (pieces false random nick channel args) (ending false random) (
      refl,
      (
        refl,
        (omega arith, (refl, (refl, (refl, (refl, (omega arith, (refl, (refl, (refl, refl))))))))),
      ),
    )
query-Literals sql true search nick channel args =
    symbols-mprintf sql (pieces true search nick channel args) (ending true search)
      (refl, (refl, (omega arith, (refl, (refl, (refl, refl))))))
query-Literals sql false search nick channel args =
    symbols-mprintf sql (pieces false search nick channel args) (ending false search) (
      refl,
      (
        refl,
        (omega arith, (refl, (refl, (refl, (refl, (omega arith, (refl, (refl, (refl, refl))))))))),
      ),
    )
query-Literals sql global interval nick channel args =
    symbols-mprintf sql (pieces global interval nick channel args) (ending global interval) (
      refl,
      (
        refl,
        (omega arith, (refl, (refl, (refl, (refl, (omega arith, (refl, (refl, (refl, refl))))))))),
      ),
    )
