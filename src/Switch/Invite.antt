-- ===== src/Switch/Invite.antt =====
-- What an invitation comes to in src/iyelld/irc.c.
use iyell.Base.{
  true, false, List, [], ◌∷◌, ◌++◌, Option, none, some, ◌≡◌, ◌⊎◌, inl, inr, refl, ap, arith,
  Bool-cases, All,
}
use iyell.CString.{Bytes, codes, contains, split, strsep}
use iyell.CString.Split.{Free, split-Free}
use iyell.Daemon.{Daemon}
use iyell.Event.{EvBuffer}
use iyell.Irc.{irc_cmd_join}
use iyell.Irc.Lines.{join_line, data-irc_cmd_join}
use iyell.Switch.{is_channel, find_channel, irc_check_invite, join_if}

-- `nick :chan`, from behind the command on
abbrev pub invite_args : Bytes → Bytes → Bytes
invite_args nick chan = nick ++ (b' ' ∷ b':' ∷ chan)

-- The first item that is the channel, with the items before it.
pub record FirstMatch (chan : Bytes) (tmp : List Bytes) (item : Bytes) : Type 0 where
  pub before : List Bytes
  pub after : List Bytes
  pub whole : tmp ≡ before ++ (item ∷ after)
  pub others : All (λ x. is_channel chan x ≡ false) before
  pub matches : is_channel chan item ≡ true

find_channel-FirstMatch :
    (chan : Bytes) (tmp : List Bytes)
    → ((find_channel chan tmp ≡ none) × All (λ x. is_channel chan x ≡ false) tmp)
      ⊎ ((item : Bytes) × (find_channel chan tmp ≡ some item) × FirstMatch chan tmp item)
unfolding find_channel
find_channel-FirstMatch chan [] = inl (refl, tt)
find_channel-FirstMatch chan (x ∷ tmp) = elim (Bool-cases (is_channel chan x)) [
  | inl hit ↦
      inr (x, rw hit, record { before = []; after = tmp; whole = refl; others = tt; matches = hit })
  | inr miss ↦ elim (find_channel-FirstMatch chan tmp) [
    | inl (e, others) ↦ inl (rw (miss, e), (miss, others))
    | inr (item, e, m) ↦ inr (
      item,
      rw (miss, e),
      record {
        before = x ∷ m.before;
        after = m.after;
        whole = ap (◌∷◌ x) m.whole;
        others = (miss, m.others);
        matches = m.matches;
      },
    )
  ]
]

module _ {B : Type 0} ⦃ev : EvBuffer B⦄ where
  open ev use {evbuffer_data}

  invite-found :
      (nick chan : Bytes) (tmp : List Bytes) (found : Option Bytes) (d : Daemon B)
      → Free (codes " ") nick
      → d.conf.global (codes "channels") ≡ some tmp
      → find_channel chan tmp ≡ found
      → irc_check_invite (some (invite_args nick chan)) d ≡ (elim found [
        | none ↦ d
        | some item ↦ record d { ircout = irc_cmd_join d.conf d.ircout (some item) }
      ])
  unfolding irc_check_invite join_if strsep split contains
  invite-found nick chan tmp found d free channels e =
      let parts = split-Free (codes " ") nick b' ' (b':' ∷ chan) free refl in
      ground (arith, parts, channels, e)

  -- Invited to a channel, the bot writes nothing when no configured channel is the channel, with or
  -- without a key; otherwise it writes one JOIN line with the first configured channel that is,
  -- wherever it stands in the list.
  pub irc_check_invite-FirstMatch :
      (nick chan : Bytes) (tmp : List Bytes) (d : Daemon B)
      → Free (codes " ") nick
      → d.conf.global (codes "channels") ≡ some tmp
      → ((irc_check_invite (some (invite_args nick chan)) d ≡ d)
          × All (λ x. is_channel chan x ≡ false) tmp)
        ⊎ ((item : Bytes) × (out : B) × (irc_check_invite (some (invite_args nick chan)) d
              ≡ record d { ircout = out })
            × (evbuffer_data out ≡ evbuffer_data d.ircout ++ join_line item)
            × FirstMatch chan tmp item)
  irc_check_invite-FirstMatch nick chan tmp d free channels =
      elim (find_channel-FirstMatch chan tmp) [
        | inl (e, others) ↦ inl (invite-found nick chan tmp none d free channels e, others)
        | inr (item, e, m) ↦ inr (
          item,
          irc_cmd_join d.conf d.ircout (some item),
          invite-found nick chan tmp (some item) d free channels e,
          data-irc_cmd_join d.conf d.ircout item,
          m,
        )
      ]
