-- ===== src/Start/Search.antt =====
-- Which file src/iyelld/conf.c reads.
use iyell.Base.{◌++◌, none, some, ◌≡◌, refl, ap}
use iyell.CString.{Bytes, codes}
use iyell.ConfIni.{Tables}
use iyell.HashText.{HashTable}
use iyell.Start.{
  Files, conf_search, conf_env, conf_home, default_conf, opens, from_env, from_home, or_else,
  read_path, conf_read,
}

conf_search-home :
    (f : Files) (home : Bytes) (text : Bytes)
    → f.getenv conf_env ≡ none
    → f.getenv (codes "HOME") ≡ some home
    → f.fopen (home ++ conf_home) ≡ some text
    → conf_search f ≡ some home
unfolding conf_search from_env from_home opens or_else
conf_search-home f home text unset set found =
    let opened : opens f (home ++ conf_home) home ≡ some home = rw (found, opens) refl in
    rw unset rw set (ap (λ o. or_else o (opens f default_conf default_conf)) opened)

module _ {T : Type 0} ⦃h : HashTable T⦄ where
  -- With a configuration file in the home directory that can be opened, and no path given, what is
  -- read is the home directory itself, as if it had been given as the file: the search answers the
  -- path without the name of the file.
  pub conf_read-home :
      (f : Files) (home : Bytes) (text : Bytes) (mem : Tables T)
      → f.getenv conf_env ≡ none
      → f.getenv (codes "HOME") ≡ some home
      → f.fopen (home ++ conf_home) ≡ some text
      → conf_read f none mem ≡ conf_read f (some home) mem
  unfolding conf_read
  conf_read-home f home text mem unset set found =
      ap (λ path. read_path f path mem) (conf_search-home f home text unset set found)
