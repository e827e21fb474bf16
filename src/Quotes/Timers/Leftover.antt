-- ===== src/Quotes/Timers/Leftover.antt =====
-- The timers of src/quotes/main.c that are left when they are stopped.
use iyell.Base.{
  ℕ, suc, false, ok, List, [], ◌∷◌, ◌++◌, Option, none, some, ◌==◌, length, length-append,
  append-nil, append_assoc, map, All, ◌≡◌, refl, sym, ◌∙◌, ap, arith, ◌+◌, ◌≤◌,
}
use iyell.CString.{Bytes}
use iyell.Number.{decimal, long_max}
use iyell.Number.RoundTrip.{strtol-decimal}
use iyell.Quotes.Db.{Sqlite, Row, db_cfg_random}
use iyell.Quotes.Timers.{
  Random, Timers, add_random, random_pairs, is_even, with_tab, quotes_random_cb, random_rows,
  quotes_start_timers, evtimer_del, delete_all, quotes_stop_timers,
}

-- The table `config` has a channel and an interval in each row.
abbrev pub config_row : Bytes × ℕ → Row
config_row (channel, n) = some channel ∷ some (decimal n) ∷ []

-- The timers of such rows.
abbrev pub numbered : ℕ → List (Bytes × ℕ) → List Random
numbered address [] = []
numbered address ((channel, n) ∷ ps) =
    record { address = address; channel = channel; tv_sec = n } ∷ numbered (suc address) ps

quotes_random_cb-config_row :
    (p : Bytes × ℕ) (t : Timers)
    → p.1 ≤ long_max
    → quotes_random_cb (config_row p) t ≡ ok (with_tab t (numbered (length t.registered) (p ∷ [])))
unfolding quotes_random_cb random_pairs is_even add_random
quotes_random_cb-config_row (channel, n) t fits = rw (strtol-decimal n fits) refl

random_rows-step :
    (row : Row) (rows : List Row) (t t' : Timers)
    → quotes_random_cb row t ≡ ok t'
    → random_rows (row ∷ rows) t ≡ random_rows rows t'
unfolding random_rows
random_rows-step row rows t t' e = rw e refl

random_rows-numbered :
    (ps : List (Bytes × ℕ)) (rows : List Row) (t : Timers)
    → All (λ p. p.1 ≤ long_max) ps
    → (tab : Option (List Random)) × (random_rows (map config_row ps ++ rows) t
        ≡ random_rows rows (record {
          registered = t.registered ++ numbered (length t.registered) ps;
          random_tab = tab;
        }))
unfolding random_rows with_tab
random_rows-numbered [] rows t fits = (
  t.random_tab,
  ap (λ r. random_rows rows (record { registered = r; random_tab = t.random_tab }))
      (sym (append-nil t.registered)),
)
random_rows-numbered (p ∷ ps) rows t fits =
    let new = numbered (length t.registered) (p ∷ []) in
    let (tab, rest) = random_rows-numbered ps rows (with_tab t new) fits.1 in
    let size : length (t.registered ++ new) ≡ suc (length t.registered) =
      omega (arith, length-append t.registered new) in
    (
      tab,
      random_rows-step (config_row p) (map config_row ps ++ rows) t (with_tab t new)
            (quotes_random_cb-config_row p t fits.0)
          ∙ rest
          ∙ ap (λ r. random_rows rows (record { registered = r; random_tab = tab }))
              (ap (λ k. (t.registered ++ new) ++ numbered k ps) size
                ∙ append_assoc t.registered new (numbered (suc (length t.registered)) ps)),
    )

-- Deleting a timer behind those with smaller addresses.
evtimer_del-last :
    (ps : List (Bytes × ℕ)) (k : ℕ) (r : Random)
    → r.address ≡ k + length ps
    → evtimer_del r.address (numbered k ps ++ (r ∷ [])) ≡ numbered k ps
unfolding evtimer_del
evtimer_del-last [] k r e = ground arith
evtimer_del-last (p ∷ ps) k r e =
    let rest = evtimer_del-last ps (suc k) r (omega (arith, e)) in
    let other : (k == r.address) ≡ false = ground (arith, e) in
    rw other (ap (◌∷◌ (record { address = k; channel = p.0; tv_sec = p.1 })) rest)

length-numbered : (k : ℕ) (ps : List (Bytes × ℕ)) → length (numbered k ps) ≡ length ps
length-numbered k [] = refl
length-numbered k (p ∷ ps) = ap suc (length-numbered (suc k) ps)

numbered-append :
    (k : ℕ) (ps qs : List (Bytes × ℕ))
    → numbered k (ps ++ qs) ≡ numbered k ps ++ numbered (k + length ps) qs
numbered-append k [] qs = ap (λ m. numbered m qs) (omega arith)
numbered-append k (p ∷ ps) qs =
    ap (◌∷◌ (record { address = k; channel = p.0; tv_sec = p.1 }))
      (numbered-append (suc k) ps qs ∙ ap (λ m. numbered (suc k) ps ++ numbered m qs) (omega arith))

-- Starting registers a timer for each row of the configuration, and stopping deletes that of the
-- last row only: the callback, which SQLite calls for each row, begins a new array each time.
pub quotes_stop_timers-leaves :
    (sql : Sqlite) (ps : List (Bytes × ℕ)) (p : Bytes × ℕ) (error : Option Bytes)
    → sql.sqlite3_exec [] db_cfg_random ≡ (map config_row ps ++ (config_row p ∷ []), error)
    → All (λ p. p.1 ≤ long_max) ps
    → p.1 ≤ long_max
    → (t : Timers) × (quotes_start_timers sql (record { registered = []; random_tab = none })
        ≡ ok t)
      × (t.registered ≡ numbered 0 (ps ++ (p ∷ [])))
      × ((quotes_stop_timers t).registered ≡ numbered 0 ps)
unfolding quotes_start_timers quotes_stop_timers delete_all with_tab random_rows
quotes_stop_timers-leaves sql ps p error answer fits fits' =
    let start : Timers = record { registered = []; random_tab = none } in
    let (tab, rows) = random_rows-numbered ps (config_row p ∷ []) start fits in
    let before : Timers = record { registered = numbered 0 ps; random_tab = tab } in
    let size : length (numbered 0 ps) ≡ 0 + length ps = omega (arith, length-numbered 0 ps) in
    let last = quotes_random_cb-config_row p before fits' in
    (
      with_tab before (numbered (length (numbered 0 ps)) (p ∷ [])),
      ap (λ (r : List Row × Option Bytes). random_rows r.0 start) answer
          ∙ rows
          ∙ random_rows-step (config_row p) [] before _ last,
      ap (λ k. numbered 0 ps ++ numbered k (p ∷ [])) size ∙ sym (numbered-append 0 ps (p ∷ [])),
      evtimer_del-last ps 0
          (record { address = length (numbered 0 ps); channel = p.0; tv_sec = p.1 }) size,
    )
