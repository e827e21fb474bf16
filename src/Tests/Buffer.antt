-- ===== src/Tests/Buffer.antt =====
-- Buffers as lists of bytes: a concrete instance of the parameter.
use iyell.Base.{
  false, ◌<◌, ◌∷◌, ◌++◌, Option, none, some, ◌≡◌, refl, ap, arith, length, drop, Option-cases, inl,
  inr,
}
use iyell.CString.{Bytes, codes, contains, split}
use iyell.CString.Split.{Free-one, split-Free, split-shrinks}
use iyell.Event.{EvBuffer}

unfoldable pub read_split : Bytes → Bytes × Option Bytes → Option Bytes × Bytes
read_split b (line, none) = (none, b)
read_split b (line, some rest) = (some line, rest)

unfoldable pub readline : Bytes → Option Bytes × Bytes
unfolding read_split
readline b = read_split b (split (codes "\n") b)

pub readline_line :
    (b line rest : Bytes)
    → contains b'\n' line ≡ false
    → b ≡ line ++ (b'\n' ∷ rest)
    → readline b ≡ (some line, rest)
unfolding readline
readline_line b line rest h e =
    rw
      (e, split-Free (codes "\n") line b'\n' rest (Free-one b'\n' line h) (unfold contains in refl))

pub readline_shrinks :
    (b line : Bytes) → (readline b).0 ≡ some line → length (readline b).1 < length b
unfolding readline
readline_shrinks b line h = elim (Option-cases (split (codes "\n") b).1) [
  | inl e ↦ absurd (ground arith)
  | inr (rest, e) ↦ rw (e, read_split) (split-shrinks (codes "\n") b rest e)
]

-- `drain` past the end empties the buffer.
instance abbrev pub list_buffer : EvBuffer Bytes
list_buffer = record {
  evbuffer_data = λ b. b;
  evbuffer_add = λ b s. b ++ s;
  evbuffer_drain = λ b n. drop n b;
  evbuffer_readline = readline;
  evbuffer_overwrite = λ b s. s;
  data-add = λ b s. refl;
  data-drain = λ b n. refl;
  data-overwrite = λ b s h. refl;
  readline_takes = λ b line rest h _ _ e. ap (λ r. r.0) (readline_line b line rest h e);
  readline_leaves = λ b line rest h _ _ e. ap (λ r. r.1) (readline_line b line rest h e);
  readline_shrinks = readline_shrinks;
}
