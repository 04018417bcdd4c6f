-- ===== src/Connection/Writes.antt =====
-- lib/server/AbstractConnection.cpp, `putPkt`: what is sent, where the other side takes it all.
use embdebug.Base.{
  ℕ, suc, ◌+◌, ◌-◌, ◌/◌, ◌%◌, bit_xor, ◌≤◌, ◌<◌, ◌≡◌, refl, sym, ap, [], ◌∷◌, ◌++◌, some, Bytes,
  arith, if◌then◌else◌, length, length-append, append_assoc, append-nil, Bool-cases, inl, inr,
}
use embdebug.Base.Outcome.{ok}
use embdebug.Hex.Digit.{hex_digit, hex2char_nibble}
use embdebug.Connection.Monad.{Conn}
use embdebug.Connection.Reads.{chars}
use embdebug.Connection.{put_rsp_char, is_escaped, put_body, put_frame}

-- The connection after the characters were sent.
unfoldable pub wrote : Bytes → Conn → Conn
wrote s c = record c { room = c.room - length s; sent = c.sent ++ s }

pub room-wrote : (s : Bytes) (c : Conn) → (wrote s c).room ≡ c.room - length s
unfolding wrote
room-wrote s c = refl

pub chars-wrote : (s : Bytes) (c : Conn) → chars (wrote s c) ≡ chars c
unfolding chars wrote
chars-wrote s c = refl

pub wrote-wrote : (s t : Bytes) (c : Conn) → wrote t (wrote s c) ≡ wrote (s ++ t) c
unfolding wrote
wrote-wrote s t c =
    let e : c.room - length s - length t ≡ c.room - length (s ++ t) =
      omega (arith, length-append s t) in
    rw (e, append_assoc c.sent s t)

wrote-nil : (c : Conn) → wrote [] c ≡ c
unfolding wrote
wrote-nil c = let e : c.room - 0 ≡ c.room = omega arith in rw (e, append-nil c.sent)

pub put_rsp_char_lem :
    (ch : ℕ) (c : Conn) → 0 < c.room → put_rsp_char ch c ≡ ok (some tt, wrote (ch ∷ []) c)
unfolding put_rsp_char wrote
put_rsp_char_lem ch c h = ground arith

-- A packet with its special characters escaped.
unfoldable pub escape : Bytes → Bytes
escape [] = []
escape (ch ∷ pkt) = if is_escaped ch then b'}' ∷ bit_xor ch 0x20 ∷ escape pkt else ch ∷ escape pkt

-- The checksum of a text, from a start value.
unfoldable pub sum_from : ℕ → Bytes → ℕ
sum_from acc [] = acc
sum_from acc (ch ∷ s) = sum_from ((acc + ch) % 256) s

pub put_body_lem :
    (pkt : Bytes) (acc : ℕ) (c : Conn)
    → length (escape pkt) ≤ c.room
    → put_body pkt acc c ≡ ok (some (sum_from acc (escape pkt)), wrote (escape pkt) c)
unfolding put_body escape sum_from
put_body_lem [] acc c h = ap (λ d. ok (some acc, d)) (sym (wrote-nil c))
put_body_lem (ch ∷ pkt) acc c h = elim (Bool-cases (is_escaped ch)) [
  | inl e ↦
      let x = bit_xor ch 0x20 in
      let c₁ = wrote (b'}' ∷ []) c in
      let c₂ = wrote (x ∷ []) c₁ in
      let fits : suc (suc (length (escape pkt))) ≤ c.room = rw e at h in
      let r₁ = room-wrote (b'}' ∷ []) c in
      let r₂ = room-wrote (x ∷ []) c₁ in
      rw (
        e,
        put_rsp_char_lem b'}' c (omega arith),
        put_rsp_char_lem x c₁ (omega arith),
        put_body_lem pkt _ c₂ (omega arith),
        wrote-wrote (b'}' ∷ []) (x ∷ []) c,
        wrote-wrote (b'}' ∷ x ∷ []) (escape pkt) c,
      )
  | inr e ↦
      let fits : suc (length (escape pkt)) ≤ c.room = rw e at h in
      let r₁ = room-wrote (ch ∷ []) c in
      rw (
        e,
        put_rsp_char_lem ch c (omega arith),
        put_body_lem pkt _ (wrote (ch ∷ []) c) (omega arith),
        wrote-wrote (ch ∷ []) (escape pkt) c,
      )
]

-- The characters of a packet on the wire.
unfoldable pub frame : Bytes → Bytes
frame pkt =
    let sum = sum_from 0 (escape pkt) in
    b'$' ∷ (escape pkt ++ (b'#' ∷ hex_digit (sum / 16) ∷ hex_digit (sum % 16) ∷ []))

pub sum_from-lt : (s : Bytes) (acc : ℕ) → acc < 256 → sum_from acc s < 256
unfolding sum_from
sum_from-lt [] acc h = h
sum_from-lt (x ∷ s) acc h = sum_from-lt s ((acc + x) % 256) (omega arith)

pub length-frame : (pkt : Bytes) → length (frame pkt) ≡ length (escape pkt) + 4
unfolding frame
length-frame pkt =
    let sum = sum_from 0 (escape pkt) in
    omega
      (arith, length-append (escape pkt) (b'#' ∷ hex_digit (sum / 16) ∷ hex_digit (sum % 16) ∷ []))

pub put_frame_lem :
    (pkt : Bytes) (c : Conn)
    → length (frame pkt) ≤ c.room
    → put_frame pkt c ≡ ok (some tt, wrote (frame pkt) c)
unfolding put_frame frame
put_frame_lem pkt c h =
    let text = escape pkt in
    let sum = sum_from 0 text in
    let small = sum_from-lt text 0 (omega arith) in
    let size = length-frame pkt in
    let c₁ = wrote (b'$' ∷ []) c in
    let c₂ = wrote text c₁ in
    let c₃ = wrote (b'#' ∷ []) c₂ in
    let c₄ = wrote (hex_digit (sum / 16) ∷ []) c₃ in
    let r₁ = room-wrote (b'$' ∷ []) c in
    let r₂ = room-wrote text c₁ in
    let r₃ = room-wrote (b'#' ∷ []) c₂ in
    let r₄ = room-wrote (hex_digit (sum / 16) ∷ []) c₃ in
    rw
      (
        put_rsp_char_lem b'$' c (omega arith),
        put_body_lem pkt 0 c₁ (omega arith),
        put_rsp_char_lem b'#' c₂ (omega arith),
        hex2char_nibble (sum / 16) (omega arith),
        put_rsp_char_lem (hex_digit (sum / 16)) c₃ (omega arith),
        hex2char_nibble (sum % 16) (omega arith),
        put_rsp_char_lem (hex_digit (sum % 16)) c₄ (omega arith),
      )
      (ap (λ d. ok (some tt, d)) (simp (wrote-wrote, append_assoc)))
