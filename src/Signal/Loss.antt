-- ===== src/Signal/Loss.antt =====
-- A second signal in src/iyelld/signal.c.
use iyell.Base.{true, false, ok, ◌≡◌, arith}
use iyell.Daemon.{Daemon, Mode}
use iyell.Event.{EvBuffer}
use iyell.Info.{info_parse, drain_all}
use iyell.Signal.{handler_verbose}

handler_verbose-connected :
    (m : Mode)
    → m.verbose ≡ true
    → ((handler_verbose m).verbose ≡ true) × ((handler_verbose m).connected ≡ false)
unfolding handler_verbose
handler_verbose-connected m h = ground arith

-- In verbose mode, the signal that should leave it leaves the flag and clears that of the
-- connection: what arrives next for the channels, from the clients or another bot, is dropped
-- without being read.
pub handler_verbose-drops :
    {B : Type 0} ⦃ev : EvBuffer B⦄ (d : Daemon B) (b : B)
    → d.mode.verbose ≡ true
    → ((handler_verbose d.mode).verbose ≡ true)
      × (info_parse (record d { mode = handler_verbose d.mode }) b
          ≡ ok (record d { mode = handler_verbose d.mode }, drain_all b))
unfolding info_parse
handler_verbose-drops d b h =
    let cleared = handler_verbose-connected d.mode h in (cleared.0, rw cleared.1)
