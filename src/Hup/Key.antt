-- ===== src/Hup/Key.antt =====
-- The key of the datagrams behind a reload of src/iyelld/hup.c.
use iyell.Base.{
  false, ok, fault, null_pointer, >>=-both, List, Option, none, some, ◌≡◌, refl, sym, ◌∙◌, ap,
  arith, Bool-cases, Option-cases, inl, inr,
}
use iyell.CString.{Bytes, codes, str_eq}
use iyell.Conf.{Conf, hash_text_get_first}
use iyell.Daemon.{Daemon}
use iyell.Event.{EvBuffer}
use iyell.Irc.{deref, irc_cmd_nick}
use iyell.Listener.{udp_get_key, info_rc4_cipher, dgram_parse}
use iyell.Hup.{
  set_nick, hup_check_nick, hup_check_channels, try_nick_change, hup_update_modes, on_new_channels,
  on_saved, hup_handler,
}

abbrev key_of : Conf → Option Bytes
key_of conf = hash_text_get_first conf.global (codes "udp_key")

key-set_nick : (fresh : Conf) (nick : Bytes) → key_of (set_nick nick fresh) ≡ key_of fresh
unfolding set_nick str_eq hash_text_get_first
key-set_nick fresh nick = refl

module _ {B : Type 0} ⦃ev : EvBuffer B⦄ where
  no_key : (d : Daemon B) (b : B) → key_of d.conf ≡ none → dgram_parse d b ≡ fault null_pointer
  unfolding dgram_parse udp_get_key info_rc4_cipher deref
  no_key d b unset = rw unset refl

  key-try_nick_change :
      (d d' : Daemon B) → try_nick_change d ≡ ok d' → key_of d'.conf ≡ key_of d.conf
  unfolding try_nick_change
  key-try_nick_change d d' e =
      let (out, run, same) =
        >>=-both (irc_cmd_nick d.conf d.ircout none)
          (λ out.
            ok (record d { ircout = out; mode = let m = d.mode in record m { nickused = false } }))
          e in
      ground (arith, same)

  key-hup_check_nick :
      (old : Bytes) (new : Option Bytes) (d d' : Daemon B)
      → hup_check_nick old new d ≡ ok d'
      → key_of d'.conf ≡ key_of d.conf
  unfolding hup_check_nick
  key-hup_check_nick old none d d' e =
      let same : record d { conf = set_nick old d.conf } ≡ d' = cc in
      ap (λ (x : Daemon B). key_of x.conf) (sym same) ∙ key-set_nick d.conf old
  key-hup_check_nick old (some new) d d' e = elim (Bool-cases (str_eq new old)) [
    | inl equal ↦
        let same : d ≡ d' = ground (arith, e, equal) in
        ap (λ (x : Daemon B). key_of x.conf) (sym same)
    | inr changed ↦ key-try_nick_change d d' (ground (arith, e, changed))
  ]

  key-on_new_channels :
      (old_n : Bytes) (old_c : List Bytes) (new_c : Option (List Bytes)) (d d' : Daemon B)
      → on_new_channels old_n old_c new_c d ≡ ok d'
      → key_of d'.conf ≡ key_of d.conf
  unfolding on_new_channels
  key-on_new_channels old_n old_c none d d' e =
      let same : d ≡ d' = cc in ap (λ (x : Daemon B). key_of x.conf) (sym same)
  key-on_new_channels old_n old_c (some new_c) d d' e =
      let (d₁, run, same) =
        >>=-both
          (hup_check_nick old_n (hash_text_get_first d.conf.global (codes "nick"))
            (record d { ircout = hup_check_channels d.conf old_c new_c d.ircout }))
          (λ x. ok (record x { mode = hup_update_modes x.conf x.mode })) e in
      let same' : record d₁ { mode = hup_update_modes d₁.conf d₁.mode } ≡ d' = cc in
      ap (λ (x : Daemon B). key_of x.conf) (sym same')
      ∙ key-hup_check_nick old_n (hash_text_get_first d.conf.global (codes "nick"))
          (record d { ircout = hup_check_channels d.conf old_c new_c d.ircout }) d₁ run

  irc_cmd_nick-answers :
      (conf : Conf) (out : B) (nick : Bytes)
      → hash_text_get_first conf.global (codes "nick") ≡ some nick
      → (out' : B) × (irc_cmd_nick conf out none ≡ ok out')
  unfolding irc_cmd_nick deref
  irc_cmd_nick-answers conf out nick set = rw set (_, refl)

  try_nick_change-answers :
      (d : Daemon B) (nick : Bytes)
      → hash_text_get_first d.conf.global (codes "nick") ≡ some nick
      → (d' : Daemon B) × (try_nick_change d ≡ ok d')
  unfolding try_nick_change
  try_nick_change-answers d nick set =
      let (out, answer) = irc_cmd_nick-answers d.conf d.ircout nick set in rw answer (_, refl)

  -- The nickname of the new configuration is written when it differs, and is there to be written.
  hup_check_nick-answers :
      (old : Bytes) (d : Daemon B)
      → (d' : Daemon B) × (hup_check_nick old (hash_text_get_first d.conf.global (codes "nick")) d
          ≡ ok d')
  unfolding hup_check_nick
  hup_check_nick-answers old d =
      elim (Option-cases (hash_text_get_first d.conf.global (codes "nick"))) [
        | inl unset ↦ rw (unset, hup_check_nick) (_, refl)
        | inr (new, set) ↦ elim (Bool-cases (str_eq new old)) [
          | inl equal ↦ (d, rw (set, hup_check_nick) rw equal refl)
          | inr changed ↦
              let (d', answer) = try_nick_change-answers d new set in
              (d', rw (set, hup_check_nick) rw changed answer)
        ]
      ]

  on_new_channels-answers :
      (old_n : Bytes) (old_c : List Bytes) (new_c : Option (List Bytes)) (d : Daemon B)
      → (d' : Daemon B) × (on_new_channels old_n old_c new_c d ≡ ok d')
  unfolding on_new_channels
  on_new_channels-answers old_n old_c none d = (d, refl)
  on_new_channels-answers old_n old_c (some new_c) d =
      let (d', answer) =
        hup_check_nick-answers old_n
          (record d { ircout = hup_check_channels d.conf old_c new_c d.ircout }) in
      rw answer (_, refl)

  -- A reload does not check the new configuration as the start does: when the daemon had a nickname
  -- and channels and the new configuration has no key, the reload ends without a fault, and a
  -- datagram that is read after it makes the daemon read a null pointer.
  pub hup_handler-without_key :
      (fresh : Conf) (old_n : Bytes) (old_c : List Bytes) (d : Daemon B)
      → hash_text_get_first d.conf.global (codes "nick") ≡ some old_n
      → d.conf.global (codes "channels") ≡ some old_c
      → hash_text_get_first fresh.global (codes "udp_key") ≡ none
      → (d' : Daemon B) × (hup_handler fresh d ≡ ok d')
        × ((b : B) → dgram_parse d' b ≡ fault null_pointer)
  unfolding hup_handler on_saved
  hup_handler-without_key fresh old_n old_c d nick channels unset =
      let new_c = fresh.global (codes "channels") in
      let (d', run) = on_new_channels-answers old_n old_c new_c (record d { conf = fresh }) in
      (
        d',
        rw (nick, hup_handler) rw (channels, on_saved) run,
        λ b.
            no_key d' b
              (key-on_new_channels old_n old_c new_c (record d { conf = fresh }) d' run ∙ unset),
      )
