-- ===== src/Irc/Lines.antt =====
-- What the commands of src/iyelld/irc.c append to the output buffer.
use iyell.Base.{[], ◌∷◌, ◌++◌, List, none, some, ◌≡◌, sym, ◌∙◌, append_assoc, append-nil}
use iyell.CString.{Bytes, codes}
use iyell.Conf.{Conf}
use iyell.Event.{EvBuffer}
use iyell.Irc.{irc_cmd_privmsg, irc_cmd_part, irc_cmd_join, add_channels}

-- The lines of the protocol.
unfoldable pub privmsg_line : Bytes → Bytes → Bytes
privmsg_line dest message = codes "PRIVMSG " ++ (dest ++ (codes " :" ++ (message ++ codes "\n")))

pub part_line : Bytes → Bytes
part_line channel = codes "PART " ++ (channel ++ codes "\n")

pub join_line : Bytes → Bytes
join_line channel = codes "JOIN " ++ (channel ++ codes "\n")

pub nick_line : Bytes → Bytes
nick_line nick = codes "NICK " ++ (nick ++ codes "\n")

-- The channels with a comma between.
unfoldable pub with_commas : List Bytes → Bytes
with_commas [] = []
with_commas (x ∷ []) = x
with_commas (x ∷ y ∷ tmp) = x ++ (codes "," ++ with_commas (y ∷ tmp))

module _ {B : Type 0} ⦃ev : EvBuffer B⦄ where
  open ev use {evbuffer_data, data-add}

  pub data-irc_cmd_privmsg :
      (out : B) (dest message : Bytes)
      → evbuffer_data (irc_cmd_privmsg out dest message)
        ≡ evbuffer_data out ++ privmsg_line dest message
  unfolding irc_cmd_privmsg privmsg_line
  data-irc_cmd_privmsg out dest message = simp (data-add, append_assoc)

  pub data-irc_cmd_part :
      (out : B) (channel : Bytes)
      → evbuffer_data (irc_cmd_part out channel) ≡ evbuffer_data out ++ part_line channel
  unfolding irc_cmd_part part_line
  data-irc_cmd_part out channel = simp (data-add, append_assoc)

  pub data-irc_cmd_join :
      (conf : Conf) (out : B) (channel : Bytes)
      → evbuffer_data (irc_cmd_join conf out (some channel))
        ≡ evbuffer_data out ++ join_line channel
  unfolding irc_cmd_join join_line
  data-irc_cmd_join conf out channel = simp (data-add, append_assoc)

  data-add_channels :
      (tmp : List Bytes) (out : B)
      → evbuffer_data (add_channels out tmp) ≡ evbuffer_data out ++ with_commas tmp
  unfolding add_channels with_commas
  data-add_channels [] out = sym (append-nil _)
  data-add_channels (x ∷ []) out = data-add out x
  data-add_channels (x ∷ y ∷ tmp) out =
      data-add_channels (y ∷ tmp) _ ∙ simp (data-add, append_assoc)

  -- With no channel named, one line joins all the configured channels; with none configured,
  -- nothing is written.
  pub data-irc_cmd_join_all :
      (conf : Conf) (out : B) (x : Bytes) (tmp : List Bytes)
      → conf.global (codes "channels") ≡ some (x ∷ tmp)
      → evbuffer_data (irc_cmd_join conf out none)
        ≡ evbuffer_data out ++ join_line (with_commas (x ∷ tmp))
  unfolding irc_cmd_join join_line
  data-irc_cmd_join_all conf out x tmp h =
      rw h (data-add _ _ ∙ rw (data-add_channels (x ∷ tmp)) (simp (data-add, append_assoc)))
