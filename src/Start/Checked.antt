-- ===== src/Start/Checked.antt =====
-- What the checks of src/iyelld/init.c are good for.
use iyell.Base.{false, ok, some, ◌≡◌, refl, ◌∙◌, ap, arith, Option-cases, inl, inr}
use iyell.CString.{Bytes, codes}
use iyell.Conf.{Conf, hash_text_get_first}
use iyell.Ctcp.{ctcp_self_ping, ctcp_request}
use iyell.Daemon.{Daemon}
use iyell.Event.{EvBuffer}
use iyell.Info.{info_parse}
use iyell.Irc.{deref}
use iyell.Listener.{udp_get_key, info_rc4_cipher, dgram_parse}
use iyell.Start.{is_unset, init}

is_set :
    (conf : Conf) (setting : Bytes)
    → is_unset conf setting ≡ false
    → (value : Bytes) × (hash_text_get_first conf.global setting ≡ some value)
unfolding is_unset
is_set conf setting e = elim (Option-cases (hash_text_get_first conf.global setting)) [
  | inl missing ↦ ground (arith, e, missing)
  | inr found ↦ found
]

init-settings :
    {B : Type 0} (conf : Conf) (d d' : Daemon B)
    → init conf d ≡ some d'
    → (d'.conf ≡ conf)
      × (is_unset conf (codes "nick") ≡ false)
      × (is_unset conf (codes "udp_key") ≡ false)
unfolding init
init-settings conf d d' e = (ground (arith, e), ground (arith, e), ground (arith, e))

module _ {B : Type 0} ⦃ev : EvBuffer B⦄ where
  open ev use {evbuffer_data, evbuffer_overwrite}

  deciphers :
      (d : Daemon B) (b : B) (key : Bytes)
      → hash_text_get_first d.conf.global (codes "udp_key") ≡ some key
      → dgram_parse d b ≡ info_parse d (evbuffer_overwrite b (d.env.rc4 key (evbuffer_data b)))
  unfolding dgram_parse udp_get_key info_rc4_cipher deref
  deciphers d b key set = rw set refl

  pings :
      (conf : Conf) (out : B) (nick : Bytes)
      → hash_text_get_first conf.global (codes "nick") ≡ some nick
      → ctcp_self_ping conf out ≡ ok (ctcp_request out nick (codes "PING"))
  unfolding ctcp_self_ping deref
  pings conf out nick set = rw set refl

  -- When `init` succeeds, the daemon has the key and the nickname that its handlers use unchecked:
  -- every datagram is deciphered with the key before it is parsed, and the ping at a silence of the
  -- server is written, so that neither of them reads a null pointer.
  pub init-Checked :
      (conf : Conf) (d d' : Daemon B)
      → init conf d ≡ some d'
      → (key : Bytes) × (nick : Bytes) × ((b : B)
          → dgram_parse d' b
            ≡ info_parse d' (evbuffer_overwrite b (d'.env.rc4 key (evbuffer_data b))))
        × ((out : B) → ctcp_self_ping d'.conf out ≡ ok (ctcp_request out nick (codes "PING")))
  init-Checked conf d d' e =
      let (same, has_nick, has_key) = init-settings conf d d' e in
      let (nick, nick_is) = is_set conf (codes "nick") has_nick in
      let (key, key_is) = is_set conf (codes "udp_key") has_key in
      let at = λ (setting : Bytes). ap (λ (c : Conf). hash_text_get_first c.global setting) same in
      (
        key,
        nick,
        λ b. deciphers d' b key (at (codes "udp_key") ∙ key_is),
        λ out. pings d'.conf out nick (at (codes "nick") ∙ nick_is),
      )
