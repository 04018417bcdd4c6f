-- ===== src/Connection/RoundTrip.antt =====
-- lib/server/AbstractConnection.cpp and Utils.cpp: `putPkt` against `getPkt` and `rspUnescape`.
use embdebug.Base.{
  ℕ, ◌+◌, ◌/◌, ◌%◌, bit_xor, ◌≤◌, ◌<◌, ◌≡◌, ◌⊎◌, refl, ◌∙◌, ap, true, false, [], ◌∷◌, ◌++◌, some,
  Bytes, arith, length, append_assoc, All, Bool-cases, inl, inr,
}
use embdebug.Base.Outcome.{ok}
use embdebug.Bits.{toggle-toggle}
use embdebug.Escape.{rsp_unescape}
use embdebug.Hex.Digit.{hex_digit, hex_digit-is_xdigit, hex_value-hex_digit}
use embdebug.Hex.Text.{AllBytes}
use embdebug.Connection.Monad.{Conn}
use embdebug.Connection.Reads.{chars}
use embdebug.Connection.Writes.{escape, sum_from, sum_from-lt, frame}
use embdebug.Connection.Get.{IsNoise, IsBody, checksum_of}
use embdebug.Connection.Receive.{get_pkt_frame_state, ack_of}
use embdebug.Connection.{is_escaped, get_pkt}

is_escaped_cases :
    (ch : ℕ) → is_escaped ch ≡ true → (ch ≡ b'$') ⊎ ((ch ≡ b'#') ⊎ ((ch ≡ b'*') ⊎ (ch ≡ b'}')))
unfolding is_escaped
is_escaped_cases ch h = ground arith

toggle-IsBody : (ch : ℕ) → is_escaped ch ≡ true → IsBody (bit_xor ch 0x20)
toggle-IsBody ch h = elim (is_escaped_cases ch h) [
  | inl e ↦ rw e (refl, refl)
  | inr (inl e) ↦ rw e (refl, refl)
  | inr (inr (inl e)) ↦ rw e (refl, refl)
  | inr (inr (inr e)) ↦ rw e (refl, refl)
]

plain-IsBody : (ch : ℕ) → is_escaped ch ≡ false → IsBody ch
unfolding is_escaped
plain-IsBody ch h = ground arith

-- No unescaped `$` or `#` is left in the body of a frame.
pub escape-IsBody : (pkt : Bytes) → All IsBody (escape pkt)
unfolding escape
escape-IsBody [] = tt
escape-IsBody (ch ∷ pkt) = elim (Bool-cases (is_escaped ch)) [
  | inl e ↦ rw e ((refl, refl), (toggle-IsBody ch e, escape-IsBody pkt))
  | inr e ↦ rw e (plain-IsBody ch e, escape-IsBody pkt)
]

rsp_unescape_plain :
    (ch : ℕ) (s : Bytes) → is_escaped ch ≡ false → rsp_unescape (ch ∷ s) ≡ ch ∷ rsp_unescape s
unfolding rsp_unescape is_escaped
rsp_unescape_plain ch [] e = ground arith
rsp_unescape_plain ch (x ∷ s) e = ground arith

-- Unescaping undoes the escaping of every packet of bytes.
pub rsp_unescape-escape : (pkt : Bytes) → AllBytes pkt → rsp_unescape (escape pkt) ≡ pkt
unfolding rsp_unescape escape
rsp_unescape-escape [] h = refl
rsp_unescape-escape (ch ∷ pkt) h = elim (Bool-cases (is_escaped ch)) [
  | inl e ↦ rw (e, toggle-toggle ch h.0, rsp_unescape-escape pkt h.1)
  | inr e ↦ rw e (rsp_unescape_plain ch (escape pkt) e ∙ ap (◌∷◌ ch) (rsp_unescape-escape pkt h.1))
]

-- `getPkt` delivers the escaped form of a packet; the room and the mode afterwards.
pub get_pkt-frame_state :
    (size : ℕ) (c : Conn) (noise pkt rest : Bytes)
    → AllBytes pkt
    → length (escape pkt) < size
    → All IsNoise noise
    → 0 < c.room
    → chars c ≡ noise ++ (frame pkt ++ rest)
    → (d : Conn) × (get_pkt size c ≡ ok (some (escape pkt), d))
      × (chars d ≡ rest)
      × (d.sent ≡ c.sent ++ ack_of c.no_ack_mode)
      × (c.room ≤ d.room + 1)
      × (d.no_ack_mode ≡ c.no_ack_mode)
unfolding frame
get_pkt-frame_state size c noise pkt rest bytes fits quiet room e =
    let sum = sum_from 0 (escape pkt) in
    let small = sum_from-lt (escape pkt) 0 (omega arith) in
    let hi : sum / 16 < 16 = omega arith in
    let lo : sum % 16 < 16 = omega arith in
    let check : sum ≡ checksum_of (hex_digit (sum / 16)) (hex_digit (sum % 16)) =
      rw (hex_value-hex_digit _ hi, hex_value-hex_digit _ lo) (omega arith) in
    get_pkt_frame_state size c noise (escape pkt) (hex_digit (sum / 16)) (hex_digit (sum % 16)) rest
      fits quiet (escape-IsBody pkt) (hex_digit-is_xdigit _ hi) (hex_digit-is_xdigit _ lo) check
      room (e ∙ ap (λ (s : Bytes). noise ++ (b'$' ∷ s)) (append_assoc (escape pkt) _ rest))

pub get_pkt-frame :
    (size : ℕ) (c : Conn) (noise pkt rest : Bytes)
    → AllBytes pkt
    → length (escape pkt) < size
    → All IsNoise noise
    → 0 < c.room
    → chars c ≡ noise ++ (frame pkt ++ rest)
    → (text : Bytes) × (d : Conn) × (get_pkt size c ≡ ok (some text, d))
      × (rsp_unescape text ≡ pkt)
      × (chars d ≡ rest)
      × (d.sent ≡ c.sent ++ ack_of c.no_ack_mode)
get_pkt-frame size c noise pkt rest bytes fits quiet room e =
    let (d, got, left, sent, _, _) =
      get_pkt-frame_state size c noise pkt rest bytes fits quiet room e in
    (escape pkt, d, got, rsp_unescape-escape pkt bytes, left, sent)
