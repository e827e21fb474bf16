-- ===== src/Quotes/Answer.antt =====
-- The way back: what the program `quotes` of src/quotes answers, as src/iyelld/hooks.c reads it and
-- sends it to the channel.
use iyell.Base.{
  ℕ, ◌≤◌, true, false, ok, [], ◌∷◌, ◌++◌, some, ◌≡◌, refl, sym, ◌∙◌, ap, arith, ◌==◌, if◌then◌else◌,
  length, length-append, drop, drop-append, append_assoc, Bool-cases, inl, inr,
}
use iyell.CString.{Bytes, codes, contains, split}
use iyell.CString.Split.{Free-one, split-Free}
use iyell.Event.{EvBuffer, evbuffer_length}
use iyell.Hooks.{
  hooks_parse_cmd, line_fields, after_recipient, fields_of, strip_mask, normal_data, reply,
}
use iyell.Irc.{irc_cmd_privmsg, irc_send_raw}
use iyell.Irc.Lines.{privmsg_line, data-irc_cmd_privmsg}
use iyell.Quotes.Replies.{Quotes, say, print, cmd_toggle_write, io_toggle_write, io_strip_nick}

-- `nick:channel:text`
abbrev pub reply_line : Bytes → Bytes → Bytes → Bytes
reply_line nick channel text = nick ++ (b':' ∷ (channel ++ (b':' ∷ text)))

answer-some : (nick channel text : Bytes) → 1 ≤ length (reply_line nick channel text ++ codes "\n")
answer-some [] channel text = omega arith
answer-some (n ∷ nick) channel text = omega arith

line_fields-answer :
    (nick channel text : Bytes) (x : ℕ)
    → contains b':' nick ≡ false
    → contains b':' channel ≡ false
    → line_fields (reply_line nick channel (x ∷ text))
      ≡ some (record { recipient = strip_mask nick; channel = channel; message = x ∷ text })
unfolding line_fields after_recipient fields_of
line_fields-answer nick channel text x n k =
    let here : contains b':' (codes ":") ≡ true = unfold contains in refl in
    rw (split-Free (codes ":") nick b':' _ (Free-one b':' nick n) here) rw
      (split-Free (codes ":") channel b':' _ (Free-one b':' channel k) here) refl

strip_mask-cons : (n : ℕ) (s : Bytes) → (n == b'!') ≡ false → strip_mask (n ∷ s) ≡ n ∷ strip_mask s
unfolding strip_mask split contains
strip_mask-cons n s h = ground (arith, h)

module _ {B : Type 0} ⦃ev : EvBuffer B⦄ where
  open ev use {evbuffer_data, evbuffer_drain, data-add, data-drain}

  -- A line of two bytes or more that does not begin with the mark of raw data.
  hooks_parse_cmd-normal :
      (line : Bytes) (c d : ℕ) (out : B)
      → (c == 1) ≡ false
      → hooks_parse_cmd (c ∷ d ∷ line) out ≡ normal_data out (line_fields (c ∷ d ∷ line))
  unfolding hooks_parse_cmd
  hooks_parse_cmd-normal line c d out h = rw h refl

  hooks_parse_cmd-long :
      (line : Bytes) (c : ℕ) (out : B)
      → (c == 1) ≡ false
      → 1 ≤ length line
      → hooks_parse_cmd (c ∷ line) out ≡ normal_data out (line_fields (c ∷ line))
  hooks_parse_cmd-long [] c out h long = ground (arith, long)
  hooks_parse_cmd-long (d ∷ line) c out h long = hooks_parse_cmd-normal line c d out h

  data-irc_send_raw-privmsg :
      (out : B) (channel nick text : Bytes)
      → evbuffer_data (
          irc_send_raw out
            (codes "PRIVMSG " ++ (channel ++ (codes " :" ++ (nick ++ (codes ": " ++ text))))))
        ≡ evbuffer_data out ++ privmsg_line channel (nick ++ (codes ": " ++ text))
  unfolding irc_send_raw privmsg_line
  data-irc_send_raw-privmsg out channel nick text = simp (data-add, append_assoc)

  -- The answer to a user in a channel.
  pub hooks_parse_cmd-answer :
      (n k x : ℕ) (nick channel text : Bytes) (out : B)
      → contains b':' (n ∷ nick) ≡ false
      → contains b':' (k ∷ channel) ≡ false
      → (n == 1) ≡ false
      → (n == b'!') ≡ false
      → (out' : B) × (hooks_parse_cmd (reply_line (n ∷ nick) (k ∷ channel) (x ∷ text)) out
          ≡ (true, out'))
        × (evbuffer_data out'
            ≡ evbuffer_data out
              ++ privmsg_line (k ∷ channel) (strip_mask (n ∷ nick) ++ (codes ": " ++ (x ∷ text))))
  unfolding normal_data reply
  hooks_parse_cmd-answer n k x nick channel text out no_colon no_colon' raw mask =
      let m = strip_mask nick in
      let cons = strip_mask-cons n nick mask in
      let message = codes ": " ++ (x ∷ text) in
      let rest = (k ∷ channel) ++ (b':' ∷ x ∷ text) in
      (
        irc_send_raw out
            (codes "PRIVMSG " ++ ((k ∷ channel) ++ (codes " :" ++ ((n ∷ m) ++ message)))),
        hooks_parse_cmd-long (nick ++ (b':' ∷ rest)) n out raw
              (omega (arith, length-append nick (b':' ∷ rest)))
            ∙ rw (line_fields-answer (n ∷ nick) (k ∷ channel) text x no_colon no_colon')
                (rw cons refl),
        data-irc_send_raw-privmsg out (k ∷ channel) (n ∷ m) (x ∷ text)
            ∙ ap (λ s. evbuffer_data out ++ privmsg_line (k ∷ channel) (s ++ message)) (sym cons),
      )

  -- The same without the nickname.
  pub hooks_parse_cmd-stripped :
      (k x : ℕ) (channel text : Bytes) (out : B)
      → contains b':' (k ∷ channel) ≡ false
      → (out' : B) × (hooks_parse_cmd (reply_line [] (k ∷ channel) (x ∷ text)) out ≡ (true, out'))
        × (evbuffer_data out' ≡ evbuffer_data out ++ privmsg_line (k ∷ channel) (x ∷ text))
  unfolding normal_data reply contains strip_mask split
  hooks_parse_cmd-stripped k x channel text out no_colon = (
    irc_cmd_privmsg out (k ∷ channel) (x ∷ text),
    hooks_parse_cmd-long ((k ∷ channel) ++ (b':' ∷ x ∷ text)) b':' out refl (omega arith)
        ∙ rw (line_fields-answer [] (k ∷ channel) text x refl no_colon) refl,
    data-irc_cmd_privmsg out (k ∷ channel) (x ∷ text),
  )

  data-print :
      (nick channel text : Bytes) (st : Quotes B)
      → evbuffer_data st.out ≡ []
      → evbuffer_data (print nick channel text st).out ≡ reply_line nick channel text ++ codes "\n"
  unfolding print
  data-print nick channel text st empty = data-add st.out _ ∙ rw empty (simp append_assoc)

  io_toggle_write-some :
      (st : Quotes B)
      → 1 ≤ length (evbuffer_data st.out)
      → io_toggle_write st ≡ ok (record st { writing = true })
  unfolding io_toggle_write evbuffer_length
  io_toggle_write-some st h = ground (arith, h)

  toggle-plain :
      (nick channel : Bytes) (st : Quotes B)
      → st.strip ≡ false
      → 1 ≤ length (evbuffer_data st.out)
      → cmd_toggle_write nick channel st ≡ ok (record st { writing = true })
  unfolding cmd_toggle_write
  toggle-plain nick channel st plain h =
      ap
        (λ b.
          io_toggle_write (if b then record st { out = io_strip_nick nick channel st.out } else st))
        plain
      ∙ io_toggle_write-some st h

  toggle-strip :
      (nick channel : Bytes) (k : ℕ) (st : Quotes B)
      → st.strip ≡ true
      → 1 ≤ length (drop (length nick) (evbuffer_data st.out))
      → cmd_toggle_write nick (k ∷ channel) st
        ≡ ok (record st { out = evbuffer_drain st.out (length nick); writing = true })
  unfolding cmd_toggle_write io_strip_nick
  toggle-strip nick channel k st strip h =
      ap
        (λ b.
          io_toggle_write
            (if b then record st { out = io_strip_nick nick (k ∷ channel) st.out } else st))
        strip
      ∙ io_toggle_write-some (record st { out = evbuffer_drain st.out (length nick) })
          (rw (data-drain st.out (length nick)) h)

  -- What `say` leaves in an empty output buffer.
  pub say-answer :
      (nick channel text : Bytes) (k : ℕ) (st : Quotes B)
      → evbuffer_data st.out ≡ []
      → (st' : Quotes B) × (say nick (k ∷ channel) text st ≡ ok st')
        × (evbuffer_data st'.out
            ≡ reply_line (if st.strip then [] else nick) (k ∷ channel) text ++ codes "\n")
        × (st'.writing ≡ true)
        × (st'.queries ≡ st.queries)
  unfolding say print
  say-answer nick channel text k st empty =
      let line = reply_line nick (k ∷ channel) text ++ codes "\n" in
      let printed = print nick (k ∷ channel) text st in
      let text_is = data-print nick (k ∷ channel) text st empty in
      let rest = (b':' ∷ ((k ∷ channel) ++ (b':' ∷ text))) ++ codes "\n" in
      let dropped : drop (length nick) (evbuffer_data printed.out) ≡ rest =
        ap (drop (length nick)) (text_is ∙ append_assoc nick _ (codes "\n"))
        ∙ drop-append nick rest in
      elim (Bool-cases st.strip) [
        | inl strip ↦ (
          record printed { out = evbuffer_drain printed.out (length nick); writing = true },
          toggle-strip nick channel k printed (strip) (rw dropped (omega arith)),
          rw strip (data-drain printed.out (length nick) ∙ dropped),
          refl,
          refl,
        )
        | inr plain ↦ (
          record printed { writing = true },
          toggle-plain nick (k ∷ channel) printed (plain)
              (rw text_is (answer-some nick (k ∷ channel) text)),
          rw plain text_is,
          refl,
          refl,
        )
      ]
