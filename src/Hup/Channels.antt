-- ===== src/Hup/Channels.antt =====
-- The channels after a reload, src/iyelld/hup.c.
use iyell.Base.{
  Bool, true, false, not, All, ◌||◌, ◌&&◌, List, [], ◌∷◌, ◌++◌, ◌≡◌, refl, ◌∙◌, ap, sym, arith,
  append_assoc, append-nil, if◌then◌else◌, Bool-cases, inl, inr, map,
}
use iyell.CString.{Bytes, codes, split, str_eq}
use iyell.CString.Split.{str_eq_iff}
use iyell.Conf.{Conf}
use iyell.Event.{EvBuffer}
use iyell.Hup.{found, join_new, part_old, hup_check_channels}
use iyell.Irc.Lines.{join_line, part_line, data-irc_cmd_join, data-irc_cmd_part}

-- The channel of an item of the configuration: a key can follow it, behind a space.
unfoldable pub channel_of : Bytes → Bytes
channel_of item = (split (codes " ") item).0

-- Whether a channel is one of the items', with any key.
unfoldable pub named : Bytes → List Bytes → Bool
named chan [] = false
named chan (x ∷ tab) = str_eq chan (channel_of x) || named chan tab

-- An item whose channel the other list has is in the other list itself: the key is the same.
abbrev pub KeepsKeys : List Bytes → List Bytes → Type 0
KeepsKeys xs other = All (λ x. named (channel_of x) other ≡ found x other) xs

-- A command to the server about one item.
pub data Change : Type 0 where
  join part : Bytes → Change

pub render : Change → Bytes
render (join c) = join_line c
render (part c) = part_line c

pub render_all : List Change → Bytes
render_all [] = []
render_all (c ∷ cs) = render c ++ render_all cs

-- Whether the server has the bot in a channel: `JOIN` puts it in, and `PART` takes it out, whatever
-- stands behind the channel.
pub joined_after : List Change → Bytes → Bool → Bool
joined_after [] chan was = was
joined_after (join c ∷ cs) chan was = joined_after cs chan (str_eq chan (channel_of c) || was)
joined_after (part c ∷ cs) chan was = joined_after cs chan (not (str_eq chan (channel_of c)) && was)

-- The items that are not found in the other list.
unfoldable pub absent : List Bytes → List Bytes → List Bytes
absent other [] = []
absent other (x ∷ xs) = if found x other then absent other xs else x ∷ absent other xs

pub changes : List Bytes → List Bytes → List Change
changes old new = map join (absent old new) ++ map part (absent new old)

module _ {B : Type 0} ⦃ev : EvBuffer B⦄ where
  open ev use {evbuffer_data}

  data-join_new :
      (conf : Conf) (old new : List Bytes) (out : B)
      → evbuffer_data (join_new conf old new out)
        ≡ evbuffer_data out ++ render_all (map join (absent old new))
  unfolding join_new absent render_all render
  data-join_new conf old [] out = sym (append-nil _)
  data-join_new conf old (n ∷ new) out = elim (Bool-cases (found n old)) [
    | inl h ↦ rw h (data-join_new conf old new out)
    | inr h ↦ rw h (data-join_new conf old new _ ∙ rw data-irc_cmd_join (simp append_assoc))
  ]

  data-part_old :
      (old new : List Bytes) (out : B)
      → evbuffer_data (part_old old new out)
        ≡ evbuffer_data out ++ render_all (map part (absent new old))
  unfolding part_old absent render_all render
  data-part_old [] new out = sym (append-nil _)
  data-part_old (o ∷ old) new out = elim (Bool-cases (found o new)) [
    | inl h ↦ rw h (data-part_old old new out)
    | inr h ↦ rw h (data-part_old old new _ ∙ rw data-irc_cmd_part (simp append_assoc))
  ]

render_all-append : (cs ds : List Change) → render_all (cs ++ ds) ≡ render_all cs ++ render_all ds
unfolding render_all
render_all-append [] ds = refl
render_all-append (c ∷ cs) ds = rw (render_all-append cs ds) (simp append_assoc)

joined_after-append :
    (cs ds : List Change) (chan : Bytes) (was : Bool)
    → joined_after (cs ++ ds) chan was ≡ joined_after ds chan (joined_after cs chan was)
unfolding joined_after
joined_after-append [] ds chan was = refl
joined_after-append (join c ∷ cs) ds chan was = joined_after-append cs ds chan _
joined_after-append (part c ∷ cs) ds chan was = joined_after-append cs ds chan _

joined_after_joins :
    (xs : List Bytes) (chan : Bytes) (was : Bool)
    → joined_after (map join xs) chan was ≡ (named chan xs || was)
unfolding joined_after named
joined_after_joins [] chan was = refl
joined_after_joins (x ∷ xs) chan was =
    joined_after_joins xs chan (str_eq chan (channel_of x) || was) ∙ ground arith

joined_after_parts :
    (xs : List Bytes) (chan : Bytes) (was : Bool)
    → joined_after (map part xs) chan was ≡ (not (named chan xs) && was)
unfolding joined_after named
joined_after_parts [] chan was = refl
joined_after_parts (x ∷ xs) chan was =
    joined_after_parts xs chan (not (str_eq chan (channel_of x)) && was) ∙ ground arith

named_congr :
    (chan x : Bytes) (tab : List Bytes) → str_eq chan x ≡ true → named chan tab ≡ named x tab
named_congr chan x tab h = ap (λ c. named c tab) ((str_eq_iff chan x).0 h)

named-absent :
    (other xs : List Bytes) (chan : Bytes)
    → KeepsKeys xs other
    → named chan (absent other xs) ≡ (named chan xs && not (named chan other))
unfolding named absent
named-absent other [] chan keeps = refl
named-absent other (x ∷ xs) chan keeps =
    let same = keeps.0 in
    let rest = named-absent other xs chan keeps.1 in
    let congr = named_congr chan (channel_of x) other in
    elim (Bool-cases (found x other)) [
      | inl h ↦ rw h ground (arith, rest, same, h, congr)
      | inr h ↦ rw h ground (arith, rest, same, h, congr)
    ]

joined_after-changes :
    (old new : List Bytes) (chan : Bytes) (was : Bool)
    → KeepsKeys new old
    → KeepsKeys old new
    → joined_after (changes old new) chan was ≡ (
        not (named chan old && not (named chan new))
        && (named chan new && not (named chan old) || was))
unfolding changes
joined_after-changes old new chan was keeps keeps' =
    joined_after-append (map join (absent old new)) (map part (absent new old)) chan was
    ∙ joined_after_parts (absent new old) chan _
    ∙ rw (joined_after_joins, named-absent old new chan keeps, named-absent new old chan keeps')

data-hup_check_channels :
    {B : Type 0} ⦃ev : EvBuffer B⦄ (conf : Conf) (old new : List Bytes) (out : B)
    → ev.evbuffer_data (hup_check_channels conf old new out)
      ≡ ev.evbuffer_data out ++ render_all (changes old new)
unfolding hup_check_channels changes
data-hup_check_channels conf old new out =
    data-part_old old new (join_new conf old new out)
    ∙ rw (data-join_new conf old new out) (rw render_all-append (simp append_assoc))

left_after-changes :
    (old new : List Bytes) (chan : Bytes) (was : Bool)
    → named chan (absent new old) ≡ true
    → joined_after (changes old new) chan was ≡ false
unfolding changes
left_after-changes old new chan was gone =
    joined_after-append (map join (absent old new)) (map part (absent new old)) chan was
    ∙ joined_after_parts (absent new old) chan _
    ∙ rw gone refl

-- When each item whose channel is in the other configuration is there itself, with the same key or
-- none, what is written to the server is a list of joins and parts after which the bot, that was in
-- the old channels, is in the new ones and no other. Wherever the bot was, a channel that both
-- configurations or none of them have is neither joined nor left.
pub hup_check_channels-Syncs :
    {B : Type 0} ⦃ev : EvBuffer B⦄ (conf : Conf) (old new : List Bytes) (out : B)
    → KeepsKeys new old
    → KeepsKeys old new
    → (cs : List Change) × (ev.evbuffer_data (hup_check_channels conf old new out)
        ≡ ev.evbuffer_data out ++ render_all cs)
      × ((chan : Bytes) → joined_after cs chan (named chan old) ≡ named chan new)
      × ((chan : Bytes) (was : Bool)
          → joined_after cs chan was
            ≡ (if named chan old then named chan new && was else named chan new || was))
hup_check_channels-Syncs conf old new out keeps keeps' = (
  changes old new,
  data-hup_check_channels conf old new out,
  λ chan. joined_after-changes old new chan (named chan old) keeps keeps' ∙ ground arith,
  λ chan was. joined_after-changes old new chan was keeps keeps' ∙ ground arith,
)

-- A channel one of whose old items is not in the new configuration is left, wherever the bot was:
-- also when the new configuration has the channel with another key, since what is written to join
-- it comes first.
pub hup_check_channels-leaves :
    {B : Type 0} ⦃ev : EvBuffer B⦄ (conf : Conf) (old new : List Bytes) (out : B) (chan : Bytes)
    → named chan (absent new old) ≡ true
    → (cs : List Change) × (ev.evbuffer_data (hup_check_channels conf old new out)
        ≡ ev.evbuffer_data out ++ render_all cs)
      × ((was : Bool) → joined_after cs chan was ≡ false)
hup_check_channels-leaves conf old new out chan gone = (
  changes old new,
  data-hup_check_channels conf old new out,
  λ was. left_after-changes old new chan was gone,
)
