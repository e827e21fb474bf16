-- ===== src/Command/Dispatch.antt =====
-- What a message comes to in src/iyelld/cmd.c.
use native.Mathlib.Numerals.{unary_clauses}
use iyell.Base.{
  ℕ, suc, ◌+◌, true, false, fault, assertion, List, [], ◌∷◌, ◌++◌, Option, some, ◌≡◌, ◌↔◌, inl, inr,
  refl, arith, length, drop, All, Bool-cases, get_elem?, length-append, ltb,
}
use iyell.CString.{Bytes, codes, str_eq, has_prefix, contains, skip, strtok}
use iyell.CString.Split.{Free, split-Free}
use iyell.Conf.{hash_text_get_first}
use iyell.Daemon.{Daemon}
use iyell.Event.{EvBuffer}
use iyell.Command.{
  cmd_delim, tokens, cmd_build_args, skip_prompt, run_words, cmd_switch, cmd_check_irc_msg,
  on_message, to_me, in_channel, is_prompt,
}

-- The bytes that the prompt loop and the tokenizer step over.
abbrev pub Blank : Bytes → Type 0
Blank s = All (λ c. contains c cmd_delim ≡ true) s

skip-Blank : (s : Bytes) → Blank s → skip cmd_delim s ≡ []
unfolding skip
skip-Blank [] h = refl
skip-Blank (c ∷ s) h = rw (h.0, skip-Blank s h.1)

Blank-skip : (s : Bytes) → skip cmd_delim s ≡ [] → Blank s
unfolding skip
Blank-skip [] h = tt
Blank-skip (c ∷ s) h = elim (Bool-cases (contains c cmd_delim)) [
  | inl hit ↦ (hit, Blank-skip s (ground (arith, hit)))
  | inr miss ↦ ground (arith, miss)
]

no_words : (s : Bytes) → (cmd_build_args s ≡ []) ↔ Blank s
unfolding cmd_build_args tokens strtok
no_words s = (
  λ h. Blank-skip s (ground (arith, h)),
  λ h. let blank : skip cmd_delim s ≡ [] = skip-Blank s h in ground (arith, blank),
)

module _ {B : Type 0} ⦃ev : EvBuffer B⦄ where
  run_words-assertion :
      (what : Bytes) (argv : List Bytes) (who : Bytes) (where' : Option Bytes) (d : Daemon B)
      → (run_words what argv who where' d ≡ fault assertion) ↔ (argv ≡ [])
  unfolding run_words
  run_words-assertion what [] who where' d = (λ h. refl, λ h. refl)
  run_words-assertion what (name ∷ argv) who where' d = (λ h. cc, λ h. cc)

  -- The assertion on the number of words fails exactly when behind the prompt there are blanks
  -- only.
  pub cmd_switch_aborts_iff :
      (who what : Bytes) (where' : Option Bytes) (d : Daemon B)
      → (cmd_switch who what where' d ≡ fault assertion) ↔ Blank (skip_prompt what)
  unfolding cmd_switch
  cmd_switch_aborts_iff who what where' d =
      let (forth, back) =
        run_words-assertion (skip_prompt what) (cmd_build_args (skip_prompt what)) who where' d in
      let (words, none') = no_words (skip_prompt what) in
      (λ h. words (forth h), λ h. back (none' h))

has_prefix-append : (p s : Bytes) → has_prefix p (p ++ s) ≡ true
unfolding has_prefix
has_prefix-append [] s = refl
has_prefix-append (c ∷ p) s = ground (arith, has_prefix-append p s)

at-append : (p : Bytes) (c : ℕ) (s : Bytes) → get_elem? (p ++ (c ∷ s)) (length p) ≡ some c
at-append [] c s = refl
at-append (x ∷ p) c s = at-append p c s

drop-suc-append : (p : Bytes) (c : ℕ) (s : Bytes) → drop (suc (length p)) (p ++ (c ∷ s)) ≡ s
drop-suc-append [] c s = refl
drop-suc-append (x ∷ p) c s = drop-suc-append p c s

module _ {B : Type 0} ⦃ev : EvBuffer B⦄ where
  in_channel-addressed :
      (me who chan what : Bytes) (c w : ℕ) (d : Daemon B)
      → is_prompt (some c) ≡ true
      → in_channel me who chan (me ++ (c ∷ w ∷ what)) d ≡ cmd_switch who (w ∷ what) (some chan) d
  unfolding in_channel
  in_channel-addressed me who chan what c w d prompt =
      let long = length-append me (c ∷ w ∷ what) in
      let enough : ltb (length (me ++ (c ∷ w ∷ what))) (length me + 2) ≡ false =
        ground (arith, long) in
      rw enough rw (has_prefix-append me (c ∷ w ∷ what)) rw (at-append me c (w ∷ what)) rw prompt
        simp unary_clauses rw (drop-suc-append me c (w ∷ what)) refl

  -- A message to a channel that begins with the bot's nickname, a prompt (a colon, a `>` or a
  -- space) and one more byte is run as a command, with the sender and the channel.
  pub cmd_check_irc_msg-addressed :
      (me who chan what : Bytes) (c w : ℕ) (d : Daemon B)
      → Free (codes " :") chan
      → str_eq chan me ≡ false
      → hash_text_get_first d.conf.global (codes "nick") ≡ some me
      → is_prompt (some c) ≡ true
      → cmd_check_irc_msg who (some (chan ++ (b' ' ∷ b':' ∷ (me ++ (c ∷ w ∷ what))))) d
        ≡ cmd_switch who (w ∷ what) (some chan) d
  unfolding cmd_check_irc_msg on_message to_me contains
  cmd_check_irc_msg-addressed me who chan what c w d free other own prompt =
      rw (split-Free (codes " :") chan b' ' (b':' ∷ (me ++ (c ∷ w ∷ what))) free refl) ground
        (arith, own, other, in_channel-addressed me who chan what c w d prompt)
