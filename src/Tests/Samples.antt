-- ===== src/Tests/Samples.antt =====
-- A configuration and a state of the daemon for the examples.
use iyell.Base.{true, false, List, [], ◌∷◌, none, some}
use iyell.CString.{Bytes, codes}
use iyell.Conf.{Conf}
use iyell.Daemon.{Mode, Stats, Env, Daemon}
use iyell.Tests.Buffer.{list_buffer}
use iyell.Tests.Table.{lookup}

abbrev pub global_records : List (Bytes × List Bytes)
global_records =
    (codes "nick", codes "bot" ∷ [])
    ∷ (codes "channels", codes "#a" ∷ codes "#b" ∷ [])
    ∷ (codes "offset", codes "900" ∷ [])
    ∷ (codes "udp_key", codes "k" ∷ [])
    ∷ []

abbrev pub conf : Conf
conf = record {
  global = lookup global_records;
  cmd = lookup [];
  hooks = lookup [];
  forward =
      lookup ((codes "warn", codes "#a" ∷ codes "#b" ∷ []) ∷ (codes "*.*", codes "#b" ∷ []) ∷ []);
  transmit = lookup [];
}

-- A configuration without settings.
abbrev pub empty_conf : Conf
empty_conf = record {
  global = lookup [];
  cmd = lookup [];
  hooks = lookup [];
  forward = lookup [];
  transmit = lookup [];
}

abbrev pub mode : Mode
mode = record {
  is_daemon = false;
  verbose = true;
  use_ssl = false;
  starting = false;
  shutdown = false;
  connected = true;
  nickused = false;
  banned = false;
  debug = false;
  key = false;
  syslog = false;
  flood = false;
  throttling = false;
  throttled = false;
  hooks = false;
  sl3164_silent = false;
  color = false;
}

abbrev pub stats : Stats
stats = record {
  boot_timestamp = 0;
  srv_in = 0;
  srv_out = 0;
  msg_in = 0;
  msg_out = 0;
  lines = 0;
  bad_msg = 0;
  oe_msg = 0;
  good_msg = 0;
}

-- In the year 2009, with timers that can always be set.
abbrev pub env : Env
env = record {
  time = some 1234567890;
  event_once = λ callback seconds. true;
  net_create_udp_socket = λ host port. true;
  rc4 = λ key data'. data';
  localtime = λ t. (0, 0);
  strftime = λ t room. none;
  errno = 0;
  uname = none;
}

abbrev pub daemon : Daemon Bytes
daemon = record {
  mode = mode;
  conf = conf;
  ircin = codes "PING :a\nPING :b\n";
  ircout = codes "A\nB\nC\nD\nE\n";
  stats = stats;
  timers = [];
  transmitted = [];
  hook_calls = [];
  last_command = 0;
  stopped = false;
  fd_closed = false;
  writing = true;
  env = env;
}

-- The same, before the connection and over SSL.
abbrev pub offline : Daemon Bytes
offline = record daemon { mode = record mode { connected = false; use_ssl = true } }
