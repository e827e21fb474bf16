-- ===== src/Info/Relay.antt =====
-- Several messages in one buffer, in src/iyelld/info.c.
use iyell.Base.{
  ℕ, zero, suc, ◌+◌, ◌≤◌, true, false, ok, [], ◌∷◌, ◌++◌, ◌≡◌, refl, ◌∙◌, ap, arith, length, drop,
  length-append,
}
use iyell.CString.{Bytes, codes, contains}
use iyell.CString.Split.{contains-append}
use iyell.Daemon.{Daemon}
use iyell.Event.{EvBuffer, evbuffer_length}
use iyell.Info.{good, info_line, parse_lines, info_parse, count_good}

drop-long : (n : ℕ) (s : Bytes) → length s ≤ n → drop n s ≡ []
drop-long zero [] h = refl
drop-long zero (c ∷ s) h = ground (arith, h)
drop-long (suc n) [] h = refl
drop-long (suc n) (c ∷ s) h = drop-long n s (omega (arith, h))

module _ {B : Type 0} ⦃ev : EvBuffer B⦄ where
  open ev use {
    evbuffer_data, evbuffer_drain, evbuffer_readline, data-drain, readline_takes, readline_leaves,
  }

  parse_lines-last :
      (fuel : ℕ) (line : Bytes) (d d' : Daemon B) (b : B)
      → 1 ≤ fuel
      → info_line line d ≡ ok (good, d')
      → evbuffer_length (evbuffer_drain b (length line + 1)) ≡ 0
      → parse_lines fuel line d b ≡ ok (count_good d', evbuffer_drain b (length line + 1))
  unfolding parse_lines
  parse_lines-last zero line d d' b some_fuel verdict empty = ground (arith, some_fuel)
  parse_lines-last (suc fuel) line d d' b some_fuel verdict empty = ground (arith, verdict, empty)

  -- A line that is no shorter than what follows it in the buffer is the last one that is read.
  pub info_parse-last :
      (line rest : Bytes) (d d' : Daemon B) (b : B)
      → d.mode.connected ≡ true
      → contains b'\n' line ≡ false
      → contains b'\r' line ≡ false
      → contains b'\r' rest ≡ false
      → length rest ≤ length line + 1
      → evbuffer_data b ≡ line ++ (b'\n' ∷ rest)
      → info_line line d ≡ ok (good, d')
      → (b' : B) × (info_parse d b ≡ ok (count_good d', b')) × (evbuffer_data b' ≡ [])
  unfolding info_parse evbuffer_length
  info_parse-last line rest d d' b on newline return no_return shorter text verdict =
      let takes = readline_takes b line rest newline return no_return text in
      let leaves = readline_leaves b line rest newline return no_return text in
      let b₁ = (evbuffer_readline b).1 in
      let b₂ = evbuffer_drain b₁ (length line + 1) in
      let empty : evbuffer_data b₂ ≡ [] =
        data-drain b₁ (length line + 1) ∙ rw leaves (drop-long (length line + 1) rest shorter) in
      let fuel : 1 ≤ length (evbuffer_data b) =
        omega (arith, ap length text, length-append line (b'\n' ∷ rest)) in
      let run =
        parse_lines-last (length (evbuffer_data b)) line d d' b₁ fuel verdict (ap length empty) in
      (b₂, rw on rw takes run, empty)

  -- After a good line the loop drains as many bytes again as the line had, though the line is off
  -- the buffer already: of two messages in one buffer, the second is dropped without being read
  -- when it is not longer than the first.
  pub info_parse-skips :
      (line line' : Bytes) (d d' : Daemon B) (b : B)
      → d.mode.connected ≡ true
      → contains b'\n' line ≡ false
      → contains b'\r' line ≡ false
      → contains b'\r' line' ≡ false
      → length line' ≤ length line
      → evbuffer_data b ≡ line ++ (b'\n' ∷ (line' ++ codes "\n"))
      → info_line line d ≡ ok (good, d')
      → (b' : B) × (info_parse d b ≡ ok (count_good d', b')) × (evbuffer_data b' ≡ [])
  unfolding contains
  info_parse-skips line line' d d' b on newline return return' shorter text verdict =
      info_parse-last line (line' ++ codes "\n") d d' b on newline return
        (contains-append b'\r' line' (codes "\n") return' refl)
        (omega (arith, shorter, length-append line' (codes "\n"))) text verdict
