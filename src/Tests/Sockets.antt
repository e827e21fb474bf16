-- ===== src/Tests/Sockets.antt =====
-- The connection and the listeners on examples.
use iyell.Base.{
  ℕ, ◌+◌, ◌≤◌, List, true, false, ok, [], ◌∷◌, ◌++◌, Option, none, some, ◌≡◌, refl, arith, length,
}
use iyell.CString.{Bytes, codes, str_eq}
use iyell.Conf.{Conf, hash_text_get_first}
use iyell.Daemon.{Daemon}
use iyell.Listener.{
  Listeners, Family, Socket, not_bound, bound, af_inet, af_inet6, start_listeners, stop_listeners,
}
use iyell.Listener.Leak.{refused_unix, listening, leaked, times, stop_listeners-start_listeners}
use iyell.Network.{BurstState}
use iyell.Network.Progress.{write_on, write_on-Empties}
use iyell.Network.Server.{Events, net_irc_event}
use iyell.Network.Silence.{net_irc_event-silence}
use iyell.Tests.Buffer.{list_buffer}
use iyell.Tests.Samples.{conf, daemon}
use iyell.Tests.Table.{lookup}

abbrev full : BurstState
full = record { burst_count = 4; last = 1234567889 }

-- The output has five lines, and the burst is used up.
write_on-Empties_example :
    (r : Daemon Bytes × BurstState) × (write_on 11 1234567890 full daemon ≡ ok r)
    × (r.0.ircout ≡ [])
write_on-Empties_example =
    write_on-Empties 11 1234567890 full daemon (omega arith) (omega arith) refl refl
      (λ callback seconds. refl) (omega arith) (omega arith)

abbrev silence : Events
silence = record { ev_read = false; ev_timeout = true; ev_write = false }

abbrev takes : Bytes → Option ℕ
takes s = some (length s)

net_irc_event-silence_example :
    (d' : Daemon Bytes) × (net_irc_event none takes silence full daemon ≡ ok (d', full))
    × (d'.ircout ≡ [])
    × (d'.writing ≡ false)
unfolding hash_text_get_first str_eq
net_irc_event-silence_example =
    net_irc_event-silence none takes silence full daemon (codes "bot") refl refl refl refl refl refl

abbrev listening_conf : Conf
listening_conf = record conf {
  global = lookup (
      (codes "udp_listener", codes "yes" ∷ [])
      ∷ (codes "udp_port", codes "25879" ∷ [])
      ∷ (codes "unix_listener", codes "yes" ∷ [])
      ∷ (codes "unix_path", codes "/tmp/iyell" ∷ [])
      ∷ []);
}

abbrev fresh : Listeners Bytes
fresh = record {
  daemon = record daemon { conf = listening_conf };
  dgram_in = [];
  syslog_in = [];
  unix_sock = [];
  syslog4 = 0;
  syslog6 = 0;
  udp4 = 0;
  udp6 = 0;
  unix = 0;
  opened = [];
  closed = [];
  unlinked = [];
}

-- IPv6 sockets are bound first, and IPv4 ones not any more.
abbrev socket_of : Family → Bytes → Socket
socket_of af_inet port = not_bound 9
socket_of af_inet6 port = bound 7

abbrev unix_socket_of : Bytes → Socket
unix_socket_of path = bound 8

socket_of-positive : (f : Family) (port : Bytes) (n : ℕ) → socket_of f port ≡ bound n → 1 ≤ n
socket_of-positive af_inet port n e = cc
socket_of-positive af_inet6 port n e = ground (arith, e)

stop_listeners-start_listeners_example :
    let l' = stop_listeners (start_listeners socket_of unix_socket_of fresh) in
    let closed =
      refused_unix unix_socket_of listening_conf
      ++ listening socket_of unix_socket_of listening_conf in
    (opened : List ℕ) × (l'.opened ≡ [] ++ opened)
    × (l'.closed ≡ [] ++ closed)
    × ((n : ℕ) → times n opened ≡ times n closed + times n (leaked socket_of listening_conf))
stop_listeners-start_listeners_example =
    stop_listeners-start_listeners socket_of unix_socket_of fresh socket_of-positive
      (λ path n e. ground (arith, e)) refl refl refl refl refl
