-- ===== src/Start.antt =====
-- Starting the daemon: src/iyelld/conf.c, which finds and reads the configuration file, `init` of
-- src/iyelld/init.c and src/iyelld/stats.c.
pub mod Checked
pub mod Search
use iyell.Base.{
  ℕ, Bool, true, false, ◌||◌, Run, ok, ◌>>=◌, List, [], ◌∷◌, ◌++◌, Option, none, some,
  if◌then◌else◌,
}
use iyell.CString.{Bytes, codes}
use iyell.Conf.{Conf, hash_text_get_first, hash_text_is_true}
use iyell.ConfIni.{Tables}
use iyell.ConfIni.File.{conf_ini_read}
use iyell.Daemon.{Daemon, Stats, Mode}
use iyell.HashText.{HashTable}
use iyell.Hup.{init_flags}

-- The environment, and the text of a file when it can be opened.
pub record Files : Type 0 where
  pub getenv : Bytes → Option Bytes
  pub fopen : Bytes → Option Bytes

abbrev pub conf_env : Bytes
conf_env = codes "IYELL_CONF"

abbrev pub conf_home : Bytes
conf_home = codes "/.iyell.ini"

-- The build without a system directory.
abbrev pub default_conf : Bytes
default_conf = codes "./iyell.ini"

-- The path, when the file can be opened.
opens : Files → Bytes → Bytes → Option Bytes
opens f path dup = elim (f.fopen path) [ none ↦ none | some text ↦ some dup ]

from_env : Files → Option Bytes → Option Bytes
unfolding opens
from_env f none = none
from_env f (some tmp) = opens f tmp tmp

-- The file below the home directory is opened; what is answered is the directory.
from_home : Files → Option Bytes → Option Bytes
unfolding opens
from_home f none = none
from_home f (some dup) = opens f (dup ++ conf_home) dup

or_else : Option Bytes → Option Bytes → Option Bytes
or_else none next = next
or_else (some dup) next = some dup

-- Memory can be had.
unfoldable pub conf_search : Files → Option Bytes
unfolding opens from_env from_home or_else
conf_search f =
    or_else (from_env f (f.getenv conf_env))
      (or_else (from_home f (f.getenv (codes "HOME"))) (opens f default_conf default_conf))

module _ {T : Type 0} ⦃h : HashTable T⦄ where
  open h use {hash_new, hash_get}

  -- What `conf_erase` frees is not used again.
  unfoldable pub conf_init : Tables T
  conf_init = record {
    global = hash_new 16;
    cmd = hash_new 4;
    hooks = hash_new 4;
    forward = hash_new 4;
    transmit = hash_new 4;
  }

  unfoldable pub conf_reinit : Tables T → Tables T
  unfolding conf_init
  conf_reinit conf = conf_init

  read_path : Files → Option Bytes → Tables T → Run (Tables T)
  read_path f none mem = ok mem
  read_path f (some file) mem = elim (f.fopen file) [
    | none ↦ ok mem
    | some text ↦ conf_ini_read text mem
  ]

  -- The result is not looked at by its callers.
  unfoldable pub conf_read : Files → Option Bytes → Tables T → Run (Tables T)
  unfolding read_path conf_search
  conf_read f (some file) mem = read_path f (some file) mem
  conf_read f none mem = read_path f (conf_search f) mem

  -- The tables as their readers see them.
  unfoldable pub conf_of : Tables T → Conf
  conf_of mem = record {
    global = hash_get mem.global;
    cmd = hash_get mem.cmd;
    hooks = hash_get mem.hooks;
    forward = hash_get mem.forward;
    transmit = hash_get mem.transmit;
  }

-- 0 when the clock fails.
unfoldable pub stats_init : Option ℕ → Stats
stats_init time = record {
  boot_timestamp = elim time [ none ↦ 0 | some boot ↦ boot ];
  srv_in = 0;
  srv_out = 0;
  msg_in = 0;
  msg_out = 0;
  lines = 0;
  bad_msg = 0;
  oe_msg = 0;
  good_msg = 0;
}

-- A setting without a datum is missing.
unfoldable pub is_unset : Conf → Bytes → Bool
is_unset conf setting = elim (hash_text_get_first conf.global setting) [
  | none ↦ true
  | some value ↦ false
]

module _ {B : Type 0} where
  -- `init` on the configuration that was read; `none` is `ERROR`. libevent can be initialised.
  unfoldable pub init : Conf → Daemon B → Option (Daemon B)
  unfolding is_unset stats_init
  init conf d =
      if is_unset conf (codes "nick")
      then none
      else if is_unset conf (codes "udp_port")
      then none
      else if is_unset conf (codes "udp_key")
      then none
      else some (record d {
        conf = conf;
        stats = stats_init d.env.time;
        mode =
            let m = d.mode in
            let m₁ = record m {
              use_ssl = hash_text_is_true conf.global (codes "ssl") || m.use_ssl;
            } in
            let m₂ = init_flags conf m₁ in record m₂ { starting = true };
      })
