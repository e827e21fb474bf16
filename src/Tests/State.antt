-- ===== src/Tests/State.antt =====
-- The state of the daemon, its output and its configuration on examples.
use iyell.Base.{
  ℕ, ◌+◌, Bool, true, false, ◌||◌, ◌&&◌, ok, List, [], ◌∷◌, ◌++◌, Option, none, some, ◌≡◌, refl,
  arith, if◌then◌else◌, length, drop, leb, ◌≤◌,
}
use iyell.Conf.{hash_text_get_first}
use iyell.ConfIni.{is_comment, Tables, conf_ini_save, save_line}
use iyell.ConfIni.Entry.{IsEntry, opens_line}
use iyell.ConfIni.File.{conf_ini_read}
use iyell.ConfIni.Line.{Datum}
use iyell.ConfIni.Saved.{conf_ini_read-conf_ini_save}
use iyell.ConfIni.Section.{insert_records}
use iyell.CString.{Bytes, split, codes, contains, str_eq}
use iyell.Daemon.{Daemon, Callback}
use iyell.Daemon.Sched.{event_once}
use iyell.Event.{evbuffer_length}
use iyell.HashText.{hash_text_insert}
use iyell.HashText.Insert.{data_of, get-hash_text_insert}
use iyell.Hup.{found, hup_check_channels, hup_update_modes, init_flags}
use iyell.Hup.Channels.{
  Change, render_all, joined_after, named, absent, channel_of, hup_check_channels-Syncs,
  hup_check_channels-leaves,
}
use iyell.Hup.Modes.{hup_update_modes-color}
use iyell.Info.{info_parse, drain_all}
use iyell.Network.{
  BurstState, net_irc_throttled_write, net_irc_cleanup, reset_burst, scan_burst, decay_burst,
  schedule_irc_write,
}
use iyell.Network.Connection.{net_irc_cleanup-Clears}
use iyell.Network.Throttle.{
  lines, payload, net_irc_throttled_write-payload, net_irc_throttled_write-keeps,
  net_irc_throttled_write-bounded,
}
use iyell.Signal.{handler_verbose}
use iyell.Signal.Loss.{handler_verbose-drops}
use iyell.Tests.Buffer.{list_buffer}
use iyell.Tests.Samples.{conf, daemon, mode, empty_conf}
use iyell.Tests.Table.{Records, list_table, lookup}

-- One channel has a key.
abbrev keyed : List Bytes
keyed = codes "#a" ∷ codes "#b k" ∷ []

abbrev other_keyed : List Bytes
other_keyed = codes "#b k" ∷ codes "#c" ∷ []

hup_check_channels-Syncs_example :
    (cs : List Change) × (hup_check_channels conf keyed other_keyed (codes "A\n")
      ≡ codes "A\n" ++ render_all cs)
    × ((chan : Bytes) → joined_after cs chan (named chan keyed) ≡ named chan other_keyed)
    × ((chan : Bytes) (was : Bool)
        → joined_after cs chan was ≡ (
            if named chan keyed
            then named chan other_keyed && was
            else named chan other_keyed || was))
unfolding named channel_of found split contains str_eq
hup_check_channels-Syncs_example =
    hup_check_channels-Syncs conf keyed other_keyed (codes "A\n") (refl, (refl, tt))
      (refl, (refl, tt))

hup_check_channels-leaves_example :
    (cs : List Change) × (hup_check_channels conf
        (codes "#a k" ∷ [])
        (codes "#a l" ∷ [])
        (codes "A\n")
      ≡ codes "A\n" ++ render_all cs)
    × ((was : Bool) → joined_after cs (codes "#a") was ≡ false)
unfolding named channel_of absent found split contains str_eq
hup_check_channels-leaves_example =
    hup_check_channels-leaves conf (codes "#a k" ∷ []) (codes "#a l" ∷ []) (codes "A\n")
      (codes "#a") refl

hup_update_modes-color_example :
    ((init_flags empty_conf mode).color ≡ true)
    × (hup_update_modes empty_conf (init_flags empty_conf mode)
        ≡ (let m = init_flags empty_conf mode in record m { color = false }))
unfolding hash_text_get_first
hup_update_modes-color_example = hup_update_modes-color empty_conf mode refl refl refl refl refl

handler_verbose-drops_example :
    ((handler_verbose mode).verbose ≡ true)
    × (info_parse (record daemon { mode = handler_verbose mode }) (codes "warn:1:hi\n")
        ≡ ok (record daemon { mode = handler_verbose mode }, drain_all (codes "warn:1:hi\n")))
handler_verbose-drops_example = handler_verbose-drops daemon (codes "warn:1:hi\n") refl

-- Two seconds after a write that left the count at one
abbrev burst : BurstState
burst = record { burst_count = 1; last = 1234567888 }

-- The socket takes at most two bytes, and never takes a text of one byte.
abbrev send_two : Bytes → Option ℕ
send_two s = if leb (length s) 1 then none else some 2

abbrev send_first : Bytes → Option ℕ
send_first s = some 2

net_irc_throttled_write-payload_example :
    (net_irc_throttled_write send_two burst daemon
      ≡ net_irc_throttled_write send_first burst daemon)
    × (lines (payload 1234567890 burst daemon) + reset_burst 1234567890 burst ≤ 4)
    × ((rest : Bytes) × (payload 1234567890 burst daemon ++ rest ≡ daemon.ircout))
unfolding scan_burst reset_burst
net_irc_throttled_write-payload_example =
    net_irc_throttled_write-payload send_two send_first burst 1234567890 daemon (omega arith) refl
      refl

-- Behind the write: a timer for the rest is set.
abbrev written : Daemon Bytes
written = record daemon {
  mode = let m = daemon.mode in record m { throttled = true };
  ircout = codes "B\nC\nD\nE\n";
  stats = let st = daemon.stats in record st { srv_out = 2 };
  timers = record { callback = Callback.net_throttled_write; seconds = 1 } ∷ [];
  writing = false;
}

abbrev burst_after : BurstState
burst_after = record { burst_count = 3; last = 1234567890 }

net_irc_throttled_write-keeps_example : written.ircout ≡ drop 2 daemon.ircout
unfolding net_irc_throttled_write evbuffer_length schedule_irc_write event_once scan_burst
    reset_burst decay_burst
net_irc_throttled_write-keeps_example =
    net_irc_throttled_write-keeps send_first burst burst_after 1234567890 1 daemon written refl
      (omega arith) refl refl

net_irc_throttled_write-bounded_example : burst_after.burst_count ≤ 4
unfolding net_irc_throttled_write evbuffer_length schedule_irc_write event_once scan_burst
    reset_burst decay_burst
net_irc_throttled_write-bounded_example =
    net_irc_throttled_write-bounded send_first burst burst_after daemon written (omega arith) refl

net_irc_cleanup-Clears_example :
    ((net_irc_cleanup daemon).ircin ≡ [])
    × ((net_irc_cleanup daemon).ircout ≡ [])
    × ((net_irc_cleanup daemon).mode.connected ≡ false)
    × ((net_irc_cleanup daemon).fd_closed ≡ true)
    × ((net_irc_cleanup daemon).timers
        ≡ record { callback = Callback.irc_reconnect; seconds = 15 } ∷ [])
net_irc_cleanup-Clears_example = net_irc_cleanup-Clears daemon refl refl

abbrev one_datum : Records
one_datum = (codes "warn", codes "#a" ∷ []) ∷ []

abbrev two_data : Records
two_data = (codes "warn", codes "#a" ∷ codes "#b" ∷ []) ∷ []

get-hash_text_insert_example : lookup two_data (codes "warn") ≡ (
    if str_eq (codes "warn") (codes "warn")
    then some (data_of (lookup one_datum (codes "warn")) ++ (codes "#b" ∷ []))
    else lookup one_datum (codes "warn"))
unfolding hash_text_insert str_eq
get-hash_text_insert_example =
    get-hash_text_insert one_datum (codes "warn") (codes "warn") (codes "#b") two_data refl

value : Datum (codes "#a")
unfolding contains
value = record {
  nonempty = omega arith;
  separate = (refl, (refl, tt));
  no_comment = (refl, (refl, tt));
  starts = λ e. ground (arith, e);
  ends = λ e. ground (arith, e);
}

abbrev two_values : List Bytes
two_values = codes "#a" ∷ codes "#a" ∷ []

entry : IsEntry (codes "warn") two_values
unfolding contains opens_line is_comment save_line
entry = record {
  opens = refl;
  undelimited = (refl, (refl, (refl, (refl, tt))));
  uncommented = (refl, (refl, (refl, (refl, tt))));
  one_line = refl;
  some_data = omega arith;
  few = omega arith;
  valid = (value, (value, tt));
  short = omega arith;
}

abbrev warned : Records
warned = (codes "warn", two_values) ∷ []

abbrev empty : Tables Records
empty = record { global = []; cmd = []; hooks = []; forward = []; transmit = [] }

-- The same entry in four of the sections.
abbrev saved : Tables Records
saved = record empty { global = warned; hooks = warned; forward = warned; transmit = warned }

conf_ini_read-conf_ini_save_example :
    conf_ini_read (conf_ini_save saved) empty
    ≡ ok (record empty { global = insert_records [] warned; forward = insert_records [] warned })
unfolding insert_records
conf_ini_read-conf_ini_save_example =
    conf_ini_read-conf_ini_save saved empty (entry, tt) tt (entry, tt) (entry, tt) (entry, tt)
