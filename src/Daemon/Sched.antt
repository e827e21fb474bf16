-- ===== src/Daemon/Sched.antt =====
-- src/iyelld/sched.c: the timers. A timer that `event_once` refuses is not registered.
use iyell.Base.{ℕ, true, [], ◌∷◌, ◌++◌, if◌then◌else◌}
use iyell.Base.Int.{ℤ, positive_or}
use iyell.Daemon.{
  Daemon, Callback, try_nick_change, irc_reconnect, try_rejoin_after_ban, irc_shutdown,
}

module _ {B : Type 0} where
  -- `event_once(-1, EV_TIMEOUT, callback, …)`
  unfoldable pub event_once : Callback → ℕ → Daemon B → Daemon B
  event_once callback seconds d =
      if d.env.event_once callback seconds
      then record d {
        timers = d.timers ++ (record { callback = callback; seconds = seconds } ∷ []);
      }
      else d

  unfoldable pub schedule_nick_change : ℤ → Daemon B → Daemon B
  unfolding positive_or event_once
  schedule_nick_change seconds = event_once try_nick_change (positive_or 180 seconds)

  unfoldable pub schedule_regain_nick : ℤ → Daemon B → Daemon B
  unfolding schedule_nick_change
  schedule_regain_nick seconds = schedule_nick_change seconds

  unfoldable pub schedule_reconnection : ℤ → Daemon B → Daemon B
  unfolding positive_or event_once
  schedule_reconnection seconds d =
      if d.mode.shutdown
      then record d { stopped = true }
      else event_once irc_reconnect (positive_or 30 seconds) d

  unfoldable pub schedule_rejoin_after_ban : ℤ → Daemon B → Daemon B
  unfolding positive_or event_once
  schedule_rejoin_after_ban seconds = event_once try_rejoin_after_ban (positive_or 180 seconds)

  unfoldable pub schedule_shutdown : Daemon B → Daemon B
  unfolding event_once
  schedule_shutdown d =
      if d.mode.connected then event_once irc_shutdown 1 d else record d { stopped = true }
