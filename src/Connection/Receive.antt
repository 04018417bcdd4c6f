-- ===== src/Connection/Receive.antt =====
-- lib/server/AbstractConnection.cpp, `getPkt`: the packets that it delivers.
use embdebug.Base.{
  ℕ, suc, ◌+◌, ◌≤◌, ◌<◌, ◌≡◌, refl, sym, ◌∙◌, ap, Bool, true, [], ◌∷◌, ◌++◌, some, Bytes, arith,
  if◌then◌else◌, length, length-append, append-nil, All, Bool-cases, inl, inr,
}
use embdebug.Base.Outcome.{ok}
use embdebug.Hex.{is_xdigit}
use embdebug.Connection.Monad.{Conn}
use embdebug.Connection.Reads.{chars, count_of, length-chars-le}
use embdebug.Connection.Writes.{wrote, room-wrote, chars-wrote, sum_from}
use embdebug.Connection.Get.{
  IsNoise, IsBody, checksum_of, get_pkt_loop_frame, acknowledge_silent, acknowledge_good,
}
use embdebug.Connection.{get_pkt_loop, get_pkt}

-- The characters of a frame with this body and these two checksum digits.
abbrev pub frame_of : Bytes → ℕ → ℕ → Bytes → Bytes
frame_of body a b rest = b'$' ∷ (body ++ (b'#' ∷ a ∷ b ∷ rest))

-- What is sent for a packet that is delivered.
abbrev pub ack_of : Bool → Bytes
ack_of no_ack = if no_ack then [] else b'+' ∷ []

pub get_pkt_loop_good :
    (noise body : Bytes) (a b fuel size : ℕ) (buf : Bytes) (c : Conn) (rest : Bytes)
    → length noise ≤ fuel
    → length body ≤ fuel
    → length buf + length body < size
    → All IsNoise noise
    → All IsBody body
    → is_xdigit a ≡ true
    → is_xdigit b ≡ true
    → sum_from 0 body ≡ checksum_of a b
    → 0 < c.room
    → chars c ≡ noise ++ frame_of body a b rest
    → (d : Conn) × (get_pkt_loop (suc fuel) size buf c ≡ ok (some (buf ++ body), d))
      × (chars d ≡ rest)
      × (d.sent ≡ c.sent ++ ack_of c.no_ack_mode)
      × (c.room ≤ d.room + 1)
      × (d.no_ack_mode ≡ c.no_ack_mode)
get_pkt_loop_good noise body a b fuel size buf c rest h₁ h₂ fits quiet clean ha hb sum room e =
    let (d, left, same, run) =
      get_pkt_loop_frame noise body fuel size buf c _ h₁ h₂ fits quiet clean e in
    elim (Bool-cases c.no_ack_mode) [
      | inl m ↦
          let (d', done, left', same') =
            acknowledge_silent (buf ++ body) a b d rest ha hb (omega (arith, same.room_eq)) left
              (same.mode_eq ∙ m) (sum_from 0 body) in
          (
            d',
            run ∙ rw done refl,
            left',
            same'.sent_eq ∙ same.sent_eq ∙ sym (rw m (append-nil c.sent)),
            omega (arith, same.room_eq, same'.room_eq),
            same'.mode_eq ∙ same.mode_eq,
          )
      | inr m ↦
          let (d', done, left', same') =
            acknowledge_good (buf ++ body) a b d rest ha hb (omega (arith, same.room_eq)) left
              (same.mode_eq ∙ m) in
          (
            wrote (b'+' ∷ []) d',
            run ∙ rw (sum, done) refl,
            chars-wrote (b'+' ∷ []) d' ∙ left',
            rw m (unfold wrote in rw (same'.sent_eq, same.sent_eq) refl),
            omega (arith, room-wrote (b'+' ∷ []) d', same.room_eq, same'.room_eq),
            unfold wrote in same'.mode_eq ∙ same.mode_eq,
          )
    ]

-- The fuel covers both pieces of a frame.
lengths-le :
    (c : Conn) (noise body : Bytes) (a b : ℕ) (rest : Bytes)
    → chars c ≡ noise ++ frame_of body a b rest
    → (length noise ≤ count_of c)
      × (length body ≤ count_of c)
      × (length noise + length body + length rest + 4 ≤ count_of c)
lengths-le c noise body a b rest e = omega (
  arith,
  length-chars-le c,
  ap length e,
  length-append noise (frame_of body a b rest),
  length-append body (b'#' ∷ a ∷ b ∷ rest),
)

-- The next theorem, with the room and the mode afterwards.
pub get_pkt_frame_state :
    (size : ℕ) (c : Conn) (noise body : Bytes) (a b : ℕ) (rest : Bytes)
    → length body < size
    → All IsNoise noise
    → All IsBody body
    → is_xdigit a ≡ true
    → is_xdigit b ≡ true
    → sum_from 0 body ≡ checksum_of a b
    → 0 < c.room
    → chars c ≡ noise ++ frame_of body a b rest
    → (d : Conn) × (get_pkt size c ≡ ok (some body, d))
      × (chars d ≡ rest)
      × (d.sent ≡ c.sent ++ ack_of c.no_ack_mode)
      × (c.room ≤ d.room + 1)
      × (d.no_ack_mode ≡ c.no_ack_mode)
unfolding get_pkt
get_pkt_frame_state size c noise body a b rest fits quiet clean ha hb sum room e =
    let all = lengths-le c noise body a b rest e in
    get_pkt_loop_good noise body a b (count_of c) size [] c rest all.0 all.1 (omega arith) quiet
      clean ha hb sum room e

-- `getPkt` delivers the body of the first frame, whatever characters other than `$` come first,
-- if the body fits the buffer and holds neither `$` nor `#`, the two digits are its checksum,
-- and one character can be sent. It consumes exactly that frame, and sends `+` unless
-- acknowledgements are off.
pub get_pkt_frame :
    (size : ℕ) (c : Conn) (noise body : Bytes) (a b : ℕ) (rest : Bytes)
    → length body < size
    → All IsNoise noise
    → All IsBody body
    → is_xdigit a ≡ true
    → is_xdigit b ≡ true
    → sum_from 0 body ≡ checksum_of a b
    → 0 < c.room
    → chars c ≡ noise ++ frame_of body a b rest
    → (d : Conn) × (get_pkt size c ≡ ok (some body, d))
      × (chars d ≡ rest)
      × (d.sent ≡ c.sent ++ ack_of c.no_ack_mode)
get_pkt_frame size c noise body a b rest fits quiet clean ha hb sum room e =
    let (d, got, left, sent, _, _) =
      get_pkt_frame_state size c noise body a b rest fits quiet clean ha hb sum room e in
    (d, got, left, sent)
