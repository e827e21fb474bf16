-- ===== src/Tests/Starting.antt =====
-- Starting the daemon, reloading it, and the timers of `quotes`, on examples.
use iyell.Base.{ok, fault, null_pointer, [], ◌∷◌, none, some, ◌≡◌, refl, arith}
use iyell.Conf.{Conf, hash_text_get_first, hash_text_is_true, hash_text_is_false}
use iyell.CString.{Bytes, codes, str_eq}
use iyell.Ctcp.{ctcp_self_ping, ctcp_request}
use iyell.Daemon.{Daemon}
use iyell.Hup.{hup_handler}
use iyell.Hup.Key.{hup_handler-without_key}
use iyell.Info.{info_parse}
use iyell.Listener.{dgram_parse}
use iyell.Quotes.Db.{Sqlite}
use iyell.Quotes.Timers.{Timers, quotes_start_timers, quotes_stop_timers}
use iyell.Quotes.Timers.Leftover.{config_row, numbered, quotes_stop_timers-leaves}
use iyell.Start.{init, is_unset}
use iyell.Start.Checked.{init-Checked}
use iyell.Tests.Buffer.{list_buffer}
use iyell.Tests.Samples.{conf, daemon}
use iyell.Tests.Searches.{sql}
use iyell.Tests.Table.{lookup}
open list_buffer use {evbuffer_data, evbuffer_overwrite}

abbrev complete : Conf
complete = record conf {
  global = lookup (
      (codes "nick", codes "bot" ∷ [])
      ∷ (codes "udp_port", codes "25879" ∷ [])
      ∷ (codes "udp_key", codes "k" ∷ [])
      ∷ []);
}

-- The daemon with the configuration, as `init` leaves it.
abbrev ready : Daemon Bytes
ready = elim (init complete daemon) [ none ↦ daemon | some d ↦ d ]

init-Checked_example :
    (key : Bytes) × (nick : Bytes) × ((b : Bytes)
      → dgram_parse ready b
        ≡ info_parse ready (evbuffer_overwrite b (ready.env.rc4 key (evbuffer_data b))))
    × ((out : Bytes) → ctcp_self_ping ready.conf out ≡ ok (ctcp_request out nick (codes "PING")))
unfolding init is_unset hash_text_get_first hash_text_is_true hash_text_is_false str_eq
init-Checked_example = init-Checked complete daemon ready refl

-- The new configuration has the same nickname and channels, and no key.
abbrev without_key : Conf
without_key = record conf {
  global =
      lookup
        ((codes "nick", codes "bot" ∷ []) ∷ (codes "channels", codes "#a" ∷ codes "#b" ∷ []) ∷ []);
}

hup_handler-without_key_example :
    (d' : Daemon Bytes) × (hup_handler without_key daemon ≡ ok d')
    × ((b : Bytes) → dgram_parse d' b ≡ fault null_pointer)
unfolding hash_text_get_first str_eq
hup_handler-without_key_example =
    hup_handler-without_key without_key (codes "bot") (codes "#a" ∷ codes "#b" ∷ []) daemon refl
      refl refl

abbrev with_two : Sqlite
with_two = record sql {
  sqlite3_exec =
      λ queries q. (config_row (codes "#a", 60) ∷ config_row (codes "#b", 90) ∷ [], none);
}

quotes_stop_timers-leaves_example :
    (t : Timers) × (quotes_start_timers with_two (record { registered = []; random_tab = none })
      ≡ ok t)
    × (t.registered ≡ numbered 0 ((codes "#a", 60) ∷ (codes "#b", 90) ∷ []))
    × ((quotes_stop_timers t).registered ≡ numbered 0 ((codes "#a", 60) ∷ []))
quotes_stop_timers-leaves_example =
    quotes_stop_timers-leaves with_two ((codes "#a", 60) ∷ []) (codes "#b", 90) none refl
      (omega arith, tt) (omega arith)
