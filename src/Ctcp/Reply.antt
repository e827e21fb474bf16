-- ===== src/Ctcp/Reply.antt =====
-- The answer to a CTCP PING, src/iyelld/ctcp.c.
use iyell.Base.{◌≤◌, true, [], ◌∷◌, ◌++◌, some, ◌≡◌, refl, arith, length, append_assoc}
use iyell.CString.{Bytes, codes, split, strsep, contains, str_eq}
use iyell.CString.Split.{Free-append, Free, split-Free}
use iyell.Ctcp.{
  contains_text, request, from_mark, ctcp_request_of, ping_text, ctcp_reply, ctcp_cmd_ping,
  dispatch, ctcp_parse,
}
use iyell.Daemon.{Daemon}
use iyell.Event.{EvBuffer}

-- `nick!mask` and a PING with its argument between two bytes 1
abbrev pub ping_line : Bytes → Bytes → Bytes → Bytes
ping_line nick mask args = (nick ++ (b'!' ∷ mask)) ++ (1 ∷ (codes "PING " ++ (args ++ (1 ∷ []))))

request_of-ping_line :
    (nick mask args : Bytes)
    → Free (1 ∷ []) nick
    → Free (codes "!") nick
    → Free (1 ∷ []) mask
    → Free (1 ∷ []) args
    → contains_text (codes "PRIVMSG") (ping_line nick mask args) ≡ true
    → ctcp_request_of (ping_line nick mask args)
      ≡ some (record { from = nick; cmd = codes "PING"; args = some args })
unfolding ctcp_request_of from_mark request strsep contains
request_of-ping_line nick mask args n1 n2 m a has =
    let before = nick ++ (b'!' ∷ mask) in
    let found : split (1 ∷ []) (ping_line nick mask args)
        ≡ (before, some (codes "PING " ++ (args ++ (1 ∷ [])))) =
      split-Free (1 ∷ []) before 1 _ (Free-append (1 ∷ []) nick (b'!' ∷ mask) n1 (refl, m)) refl in
    let command : split (b' ' ∷ 1 ∷ []) (codes "PING " ++ (args ++ (1 ∷ [])))
        ≡ (codes "PING", some (args ++ (1 ∷ []))) =
      split-Free (b' ' ∷ 1 ∷ []) (codes "PING") b' ' _ (refl, (refl, (refl, (refl, tt)))) refl in
    let argument = split-Free (1 ∷ []) args 1 [] a refl in
    let who : split (codes "!") (before ++ (1 ∷ codes "PING"))
        ≡ (nick, some (mask ++ (1 ∷ codes "PING"))) =
      rw (append_assoc nick (b'!' ∷ mask) (1 ∷ codes "PING"))
        (split-Free (codes "!") nick b'!' _ n2 refl) in
    rw has rw found rw command rw argument rw who refl

module _ {B : Type 0} ⦃ev : EvBuffer B⦄ where
  open ev use {evbuffer_data, data-add}

  -- A CTCP PING whose argument has more than one byte is answered, in one NOTICE line to the nick
  -- of the sender, by a PING with the same argument.
  pub ctcp_parse-ping :
      (nick mask args : Bytes) (d : Daemon B)
      → Free (1 ∷ []) nick
      → Free (codes "!") nick
      → Free (1 ∷ []) mask
      → Free (1 ∷ []) args
      → 2 ≤ length args
      → contains_text (codes "PRIVMSG") (ping_line nick mask args) ≡ true
      → (out : B) × (ctcp_parse (ping_line nick mask args) d ≡ record d { ircout = out })
        × (evbuffer_data out
            ≡ evbuffer_data d.ircout
              ++ (codes "NOTICE "
                  ++ (nick ++ (b' ' ∷ b':' ∷ 1 ∷ (codes "PING " ++ (args ++ (1 ∷ b'\n' ∷ [])))))))
  unfolding ctcp_parse dispatch ctcp_cmd_ping ping_text ctcp_reply str_eq
  ctcp_parse-ping nick mask args d n1 n2 m a long has =
      let parsed = request_of-ping_line nick mask args n1 n2 m a has in
      let text : ping_text (some args) ≡ codes "PING " ++ args = ground (arith, long) in
      (
        ctcp_reply d.ircout nick (codes "PING " ++ args),
        ground (arith, parsed, text),
        simp (data-add, append_assoc),
      )
