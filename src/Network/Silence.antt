-- ===== src/Network/Silence.antt =====
-- A connection of src/iyelld/network.c on which nothing comes.
use iyell.Base.{
  ℕ, suc, ◌≤◌, true, false, ok, [], ◌∷◌, ◌++◌, Option, some, ◌≡◌, refl, sym, ◌∙◌, ap, arith, length,
  drop, append_assoc,
}
use iyell.CString.{Bytes, codes}
use iyell.Conf.{hash_text_get_first}
use iyell.Ctcp.{ctcp_self_ping, ctcp_request}
use iyell.Daemon.{Daemon}
use iyell.Event.{EvBuffer, evbuffer_length}
use iyell.Irc.{deref}
use iyell.Network.{BurstState, net_irc_write, sent, after_write}
use iyell.Network.Connection.{drop_all}
use iyell.Network.Server.{Events, net_irc_timeout, write_event, timeout_or_write, net_irc_event}

-- `PRIVMSG nick :PING` in marks
abbrev pub ping_line : Bytes → Bytes
ping_line nick =
    codes "PRIVMSG " ++ (nick ++ (b' ' ∷ b':' ∷ 1 ∷ (codes "PING" ++ (1 ∷ b'\n' ∷ []))))

length-some : (out nick : Bytes) → (n : ℕ) × (length (out ++ ping_line nick) ≡ suc n)
length-some [] nick = (_, refl)
length-some (c ∷ out) nick = (_, refl)

module _ {B : Type 0} ⦃ev : EvBuffer B⦄ where
  open ev use {evbuffer_data, evbuffer_drain, data-add, data-drain}

  data-ctcp_request-ping :
      (out : B) (nick : Bytes)
      → evbuffer_data (ctcp_request out nick (codes "PING")) ≡ evbuffer_data out ++ ping_line nick
  unfolding ctcp_request
  data-ctcp_request-ping out nick = simp (data-add, append_assoc)

  net_irc_write-taken :
      (send : Bytes → Option ℕ) (d : Daemon B) (n : ℕ)
      → 1 ≤ length (evbuffer_data d.ircout)
      → send (evbuffer_data d.ircout) ≡ some (suc n)
      → net_irc_write send d ≡ ok (after_write (sent (suc n) d))
  unfolding net_irc_write evbuffer_length
  net_irc_write-taken send d n full taken = ground (arith, full, taken)

  after_write-empty :
      (d : Daemon B)
      → d.mode.shutdown ≡ false
      → evbuffer_data d.ircout ≡ []
      → after_write d ≡ record d { writing = false }
  unfolding after_write evbuffer_length
  after_write-empty d up empty = rw up rw empty refl

  -- A write that takes everything, while the bot is not shutting down.
  net_irc_write-all :
      (send : Bytes → Option ℕ) (d : Daemon B) (n : ℕ)
      → length (evbuffer_data d.ircout) ≡ suc n
      → d.mode.shutdown ≡ false
      → send (evbuffer_data d.ircout) ≡ some (suc n)
      → (d' : Daemon B) × (net_irc_write send d ≡ ok d')
        × (evbuffer_data d'.ircout ≡ [])
        × (d'.writing ≡ false)
  unfolding sent
  net_irc_write-all send d n size up taken =
      let empty : evbuffer_data (evbuffer_drain d.ircout (suc n)) ≡ [] =
        data-drain d.ircout (suc n)
        ∙ ap (λ k. drop k (evbuffer_data d.ircout)) (sym size)
        ∙ drop_all (evbuffer_data d.ircout) in
      (
        record (sent (suc n) d) { writing = false },
        net_irc_write-taken send d n (omega (arith, size)) taken
            ∙ ap ok (after_write-empty (sent (suc n) d) up empty),
        empty,
        refl,
      )

  net_irc_timeout-nick :
      (d : Daemon B) (nick : Bytes)
      → hash_text_get_first d.conf.global (codes "nick") ≡ some nick
      → net_irc_timeout d ≡ ok (record d { ircout = ctcp_request d.ircout nick (codes "PING") })
  unfolding net_irc_timeout ctcp_self_ping deref
  net_irc_timeout-nick d nick set = rw set refl

  write_event-plain :
      (send : Bytes → Option ℕ) (s : BurstState) (d d' : Daemon B)
      → d.mode.throttling ≡ false
      → net_irc_write send d ≡ ok d'
      → write_event send s d ≡ ok (d', s)
  unfolding write_event
  write_event-plain send s d d' free run = ground (arith, free, run)

  -- When nothing came for the time of the timeout, the bot writes a PING to itself behind what its
  -- output holds and hands all of it to `send` at once, without an event for writing: when `send`
  -- takes it, the output is empty and the event waits for input again. The bot has a nickname, is
  -- not throttling its output and not shutting down.
  pub net_irc_event-silence :
      (recv : Option Bytes) (send : Bytes → Option ℕ) (event : Events) (s : BurstState)
      → (d : Daemon B) (nick : Bytes) → event.ev_read ≡ false
      → event.ev_timeout ≡ true
      → hash_text_get_first d.conf.global (codes "nick") ≡ some nick
      → d.mode.throttling ≡ false
      → d.mode.shutdown ≡ false
      → (let text = evbuffer_data d.ircout ++ ping_line nick in send text ≡ some (length text))
      → (d' : Daemon B) × (net_irc_event recv send event s d ≡ ok (d', s))
        × (evbuffer_data d'.ircout ≡ [])
        × (d'.writing ≡ false)
  unfolding net_irc_event timeout_or_write
  net_irc_event-silence recv send event s d nick quiet timeout set free up taken =
      let d₁ : Daemon B = record d { ircout = ctcp_request d.ircout nick (codes "PING") } in
      let text = evbuffer_data d.ircout ++ ping_line nick in
      let data_is : evbuffer_data d₁.ircout ≡ text = data-ctcp_request-ping d.ircout nick in
      let (n, size) = length-some (evbuffer_data d.ircout) nick in
      let (d', run, empty, off) =
        net_irc_write-all send d₁ n (ap length data_is ∙ size) up
          (ap send data_is ∙ taken ∙ ap some size) in
      (
        d',
        rw quiet rw timeout rw (net_irc_timeout-nick d nick set)
            (write_event-plain send s d₁ d' free run),
        empty,
        off,
      )
