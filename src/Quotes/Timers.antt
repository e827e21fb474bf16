-- ===== src/Quotes/Timers.antt =====
-- src/quotes/main.c: the timers that print a quote at random, from the configuration in the
-- database to their end.
pub mod Leftover
use iyell.Base.{
  ℕ, zero, suc, Bool, true, false, not, Run, ok, fault, null_pointer, ◌>>=◌, List, [], ◌∷◌, ◌++◌,
  Option, none, some, ◌==◌, if◌then◌else◌, length, length-append, append-nil, append_assoc, map,
  All, ◌≡◌, refl, sym, ◌∙◌, ap, arith, ◌+◌, ◌≤◌,
}
use iyell.Base.Int.{ℤ, pos, negsuc}
use iyell.CString.{Bytes}
use iyell.Number.{strtol, decimal, long_max}
use iyell.Number.RoundTrip.{strtol-decimal}
use iyell.Quotes.Db.{Sqlite, Row, db_cfg_random}

-- `random_t`: where it stands, the channel, and the seconds of the interval.
pub record Random : Type 0 where
  pub address : ℕ
  pub channel : Bytes
  pub tv_sec : ℕ

-- The timers that libevent has, the last one at the end, and `random_tab`.
pub record Timers : Type 0 where
  pub registered : List Random
  pub random_tab : Option (List Random)

add_random : ℕ → Bytes → ℤ → (ℕ → List Random) → List Random
add_random address channel (negsuc n) rest = rest address
add_random address channel (pos n) rest =
    record { address = address; channel = channel; tv_sec = n } ∷ rest (suc address)

-- The loop over the pairs of a channel and an interval; a negative interval is left out. `strdup`
-- and `strtol` want a string.
unfoldable pub random_pairs : Row → Run (ℕ → List Random)
unfolding add_random
random_pairs [] = ok (λ address. [])
random_pairs (channel ∷ []) = ok (λ address. [])
random_pairs (none ∷ interval ∷ row) = fault null_pointer
random_pairs (some channel ∷ none ∷ row) = fault null_pointer
random_pairs (some channel ∷ some interval ∷ row) =
    random_pairs row >>= λ rest. ok (λ address. add_random address channel (strtol interval) rest)

unfoldable pub is_even : Row → Bool
is_even [] = true
is_even (a ∷ []) = false
is_even (a ∷ b ∷ row) = is_even row

with_tab : Timers → List Random → Timers
with_tab t tab = record { registered = t.registered ++ tab; random_tab = some tab }

-- `random_tab` is a new array in each call, and `malloc` gives new addresses.
unfoldable pub quotes_random_cb : Row → Timers → Run Timers
unfolding random_pairs is_even with_tab
quotes_random_cb row t =
    if is_even row
    then (random_pairs row >>= λ tab. ok (with_tab t (tab (length t.registered))))
    else ok t

unfoldable pub random_rows : List Row → Timers → Run Timers
unfolding quotes_random_cb
random_rows [] t = ok t
random_rows (row ∷ rows) t = quotes_random_cb row t >>= λ t'. random_rows rows t'

-- `db_config_random` calls the callback for each row of the answer.
unfoldable pub quotes_start_timers : Sqlite → Timers → Run Timers
unfolding random_rows
quotes_start_timers sql t =
    random_rows (sql.sqlite3_exec [] db_cfg_random).0 (record t { random_tab = none })

-- `evtimer_del`
unfoldable pub evtimer_del : ℕ → List Random → List Random
evtimer_del address [] = []
evtimer_del address (r ∷ rs) =
    let rest = evtimer_del address rs in if r.address == address then rest else r ∷ rest

unfoldable pub delete_all : List Random → List Random → List Random
unfolding evtimer_del
delete_all [] registered = registered
delete_all (r ∷ tab) registered = delete_all tab (evtimer_del r.address registered)

unfoldable pub quotes_stop_timers : Timers → Timers
unfolding delete_all
quotes_stop_timers t = elim t.random_tab [
  | none ↦ t
  | some tab ↦ record { registered = delete_all tab t.registered; random_tab = none }
]
