-- ===== src/Event.antt =====
-- The byte buffers of libevent (`struct evbuffer`), which the program calls and does not
-- implement: a parameter of the model, with the documented behaviour of the calls as laws.
use iyell.Base.{ℕ, false, ◌<◌, [], ◌∷◌, ◌++◌, Option, some, ◌≡◌, length, drop}
use iyell.CString.{Bytes, contains}

-- The line ends that `evbuffer_readline` knows: carriage return and newline.
abbrev pub eol : Bytes
eol = b'\r' ∷ b'\n' ∷ []

pub record EvBuffer (B : Type 0) : Type 0 where
  pub evbuffer_data : B → Bytes
  pub evbuffer_add : B → Bytes → B
  pub evbuffer_drain : B → ℕ → B
  pub evbuffer_readline : B → Option Bytes × B
  -- Bytes that are written over those of `EVBUFFER_DATA(b)`, as many as there are.
  pub evbuffer_overwrite : B → Bytes → B
  pub data-add : (b : B) (s : Bytes) → evbuffer_data (evbuffer_add b s) ≡ evbuffer_data b ++ s
  pub data-drain : (b : B) (n : ℕ) → evbuffer_data (evbuffer_drain b n) ≡ drop n (evbuffer_data b)
  pub data-overwrite :
      (b : B) (s : Bytes)
      → length s ≡ length (evbuffer_data b)
      → evbuffer_data (evbuffer_overwrite b s) ≡ s
  -- A line is taken off the buffer with the newline that ends it.
  pub readline_takes :
      (b : B) (line rest : Bytes)
      → contains b'\n' line ≡ false
      → contains b'\r' line ≡ false
      → contains b'\r' rest ≡ false
      → evbuffer_data b ≡ line ++ (b'\n' ∷ rest)
      → (evbuffer_readline b).0 ≡ some line
  pub readline_leaves :
      (b : B) (line rest : Bytes)
      → contains b'\n' line ≡ false
      → contains b'\r' line ≡ false
      → contains b'\r' rest ≡ false
      → evbuffer_data b ≡ line ++ (b'\n' ∷ rest)
      → evbuffer_data (evbuffer_readline b).1 ≡ rest
  -- Each line that is read makes the buffer shorter.
  pub readline_shrinks :
      (b : B) (line : Bytes)
      → (evbuffer_readline b).0 ≡ some line
      → length (evbuffer_data (evbuffer_readline b).1) < length (evbuffer_data b)

module _ {B : Type 0} ⦃ev : EvBuffer B⦄ where
  -- `EVBUFFER_LENGTH(b)`
  unfoldable pub evbuffer_length : B → ℕ
  evbuffer_length b = length (ev.evbuffer_data b)
