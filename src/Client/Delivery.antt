-- ===== src/Client/Delivery.antt =====
-- The way of a message from the command line of src/iyell/main.c to the channels of the bot.
use iyell.Base.{
  ℕ, suc, ◌≤◌, true, false, ok, List, [], ◌∷◌, ◌++◌, Option, none, some, ◌≡◌, refl, sym, ◌∙◌, ap,
  arith, length, ◌==◌, append_assoc, append-nil, map, take, All, Bool-cases, inl, inr, zero,
}
use iyell.CString.{Bytes, codes, contains, is_digit}
use iyell.CString.Split.{contains-append}
use iyell.Info.Delivery.{client_line}
use iyell.Number.{decimal, print_long}
use iyell.Number.RoundTrip.{decimal-All}
use iyell.Transmit.{time_long}
use iyell.Client.{
  Host, Settings, Sent, udp, socket, goes_on, message_text, is_path, read_password, send_udp,
  send_message, send_messages,
}

-- What the client puts behind the timestamp.
abbrev pub body : Option Bytes → Bytes → Bytes
body none str = str
body (some intro) str = intro ++ (codes " " ++ str)

pub message_text-client_line :
    (type : Bytes) (p : ℕ) (intro : Option Bytes) (str : Bytes)
    → message_text type (some p) intro str ≡ client_line type p (body intro str) ++ codes "\n"
unfolding message_text time_long print_long
message_text-client_line type p none str = simp append_assoc
message_text-client_line type p (some intro) str = simp append_assoc

cc_digit : (d c : ℕ) → (d == c) ≡ true → is_digit d ≡ false → is_digit c ≡ true → ⊥
cc_digit d c e h k = let same : d ≡ c = ground arith in cc

digits-without :
    (d : ℕ) (s : Bytes) → is_digit d ≡ false → All (λ c. is_digit c ≡ true) s → contains d s ≡ false
unfolding contains
digits-without d [] h all = refl
digits-without d (c ∷ s) h all =
    let digit = all.0 in
    let different : (d == c) ≡ false = elim (Bool-cases (d == c)) [
      | inl e ↦ absurd (cc_digit d c e h digit)
      | inr e ↦ e
    ] in
    rw different (digits-without d s h all.1)

-- A byte that is in none of the fields, and neither a colon nor a digit, is not in the line.
pub client_line-without :
    (d p : ℕ) (type message : Bytes)
    → is_digit d ≡ false
    → contains d (codes ":") ≡ false
    → contains d type ≡ false
    → contains d message ≡ false
    → contains d (client_line type p message) ≡ false
client_line-without d p type message h colon in_type in_message = contains-append d type _ in_type (
    contains-append d (codes ":") _ colon (
      contains-append d (decimal p) _ (digits-without d (decimal p) h (decimal-All p))
        (contains-append d (codes ":") message colon in_message)))

pub take-all : (n : ℕ) (s : Bytes) → length s ≤ n → take n s ≡ s
take-all zero [] h = refl
take-all zero (c ∷ s) h = ground (arith, h)
take-all (suc n) [] h = refl
take-all (suc n) (c ∷ s) h = rw (take-all n s (omega (arith, h)))

-- The datagram of a message.
abbrev pub datagram : Host → Settings → Bytes → Bytes → Bytes → Bytes
datagram h g type key str = h.rc4 key (message_text type h.time g.intro str)

module _ (h : Host) (g : Settings) (type key : Bytes) where
  abbrev pub to_bot : Bytes → Sent
  to_bot str = udp g.address g.port (datagram h g type key str)

  send_message-udp :
      (str : Bytes) (sent : List Sent)
      → is_path g.address ≡ false
      → read_password h g.file ≡ some key
      → h.getaddrinfo g.address g.port ≡ socket true
      → send_message h g type str sent ≡ ok (goes_on (sent ++ (to_bot str ∷ [])))
  unfolding send_message send_udp
  send_message-udp str sent remote password resolves = ground (arith, remote, password, resolves)

  -- With a password and an address that has a socket, the client sends one datagram for each
  -- message, in their order.
  pub send_messages-udp :
      (argv : List Bytes) (sent : List Sent)
      → is_path g.address ≡ false
      → read_password h g.file ≡ some key
      → h.getaddrinfo g.address g.port ≡ socket true
      → send_messages h g type argv sent ≡ ok (goes_on (sent ++ map to_bot argv))
  unfolding send_messages
  send_messages-udp [] sent remote password resolves =
      ap (λ s. ok (goes_on s)) (sym (append-nil sent))
  send_messages-udp (arg ∷ argv) sent remote password resolves =
      rw (send_message-udp arg sent remote password resolves) (
        send_messages-udp argv (sent ++ (to_bot arg ∷ [])) remote password resolves
        ∙ ap (λ s. ok (goes_on s)) (append_assoc sent (to_bot arg ∷ []) (map to_bot argv)))
