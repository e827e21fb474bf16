-- ===== src/Hup/Modes.antt =====
-- The modes at the start and after a reload, src/iyelld/init.c and src/iyelld/hup.c.
use iyell.Base.{Bool, true, false, none, ◌||◌, ◌≡◌, refl}
use iyell.CString.{codes}
use iyell.Conf.{Conf, hash_text_is_true, hash_text_is_false, hash_text_get_first}
use iyell.Daemon.{Mode}
use iyell.Hup.{hup_update_modes, init_flags}

-- A flag that the command line leaves off.
or_false : (b c : Bool) → c ≡ false → (b || c) ≡ b
or_false true c h = refl
or_false false c h = h

-- A configuration that says nothing of colours turns them on at the start, and the reload of the
-- same configuration turns them off; the other flags that both set are the same.
pub hup_update_modes-color :
    (conf : Conf) (mode : Mode)
    → hash_text_get_first conf.global (codes "color") ≡ none
    → mode.sl3164_silent ≡ false
    → mode.hooks ≡ false
    → mode.syslog ≡ false
    → mode.throttling ≡ false
    → ((init_flags conf mode).color ≡ true)
      × (hup_update_modes conf (init_flags conf mode)
          ≡ (let m = init_flags conf mode in record m { color = false }))
unfolding init_flags hup_update_modes hash_text_is_true hash_text_is_false
hup_update_modes-color conf mode h a b c e =
    (rw h, rw (h, or_false _ _ a, or_false _ _ b, or_false _ _ c, or_false _ _ e))
