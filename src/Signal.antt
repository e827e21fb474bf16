-- ===== src/Signal.antt =====
-- src/iyelld/signal.c: the handlers that change the mode.
pub mod Loss
use iyell.Base.{Bool, true, false, ◌≡◌, arith, if◌then◌else◌}
use iyell.Daemon.{Daemon, Mode}
use iyell.Daemon.Sched.{schedule_shutdown}

-- `g_mode & DEBUG` and `g_mode & VERBOSE`: every other flag is cleared.
unfoldable pub only_debug : Mode → Mode
only_debug m = record {
  is_daemon = false;
  verbose = false;
  use_ssl = false;
  starting = false;
  shutdown = false;
  connected = false;
  nickused = false;
  banned = false;
  debug = m.debug;
  key = false;
  syslog = false;
  flood = false;
  throttling = false;
  throttled = false;
  hooks = false;
  sl3164_silent = false;
  color = false;
}

unfoldable pub only_verbose : Mode → Mode
only_verbose m = record {
  is_daemon = false;
  verbose = m.verbose;
  use_ssl = false;
  starting = false;
  shutdown = false;
  connected = false;
  nickused = false;
  banned = false;
  debug = false;
  key = false;
  syslog = false;
  flood = false;
  throttling = false;
  throttled = false;
  hooks = false;
  sl3164_silent = false;
  color = false;
}

unfoldable pub handler_debug : Mode → Mode
unfolding only_debug only_verbose
handler_debug m =
    if m.debug then only_verbose (only_debug m) else record m { debug = true; verbose = true }

unfoldable pub handler_verbose : Mode → Mode
unfolding only_verbose
handler_verbose m = if m.verbose then only_verbose m else record m { verbose = true }

module _ {B : Type 0} where
  -- The deletion of the events of the listeners is not modelled.
  unfoldable pub handler_shutdown : Daemon B → Daemon B
  unfolding schedule_shutdown
  handler_shutdown d =
      schedule_shutdown (record d { mode = let m = d.mode in record m { shutdown = true } })
