-- ===== src/Connection/Put.antt =====
-- lib/server/AbstractConnection.cpp, `putPkt`: the frame and its answers.
use embdebug.Base.{
  ℕ, zero, suc, ◌+◌, ◌*◌, ◌≤◌, ◌<◌, ◌≡◌, refl, ◌∙◌, ap, true, false, [], ◌∷◌, ◌++◌, some, Bytes,
  arith, ◌==◌, length, length-append, append_assoc, append-nil, All,
}
use embdebug.Base.Outcome.{ok}
use embdebug.Connection.Monad.{Conn, if_true_run, if_false_run}
use embdebug.Connection.Reads.{chars, SameOutput, get_rsp_char-cons, length-chars-le}
use embdebug.Connection.Writes.{frame, wrote, room-wrote, chars-wrote, put_frame_lem}
use embdebug.Connection.{get_ack, put_pkt, put_pkt_loop, break_char, fuel_of}

-- Without acknowledgements, `putPkt` sends the frame of the packet once and changes nothing else,
-- if the other side takes that many characters.
pub put_pkt_no_ack :
    (pkt : Bytes) (c : Conn)
    → c.no_ack_mode ≡ true
    → length (frame pkt) ≤ c.room
    → put_pkt pkt c ≡ ok (some tt, wrote (frame pkt) c)
unfolding put_pkt put_pkt_loop
put_pkt_no_ack pkt c mode h =
    let mode₁ : (wrote (frame pkt) c).no_ack_mode ≡ true = unfold wrote in mode in
    rw (put_frame_lem pkt c h) (if_true_run _ _ _ (wrote (frame pkt) c) mode₁)

get_ack_lem :
    (c : Conn) (a : ℕ) (rest : Bytes)
    → chars c ≡ a ∷ rest
    → (a == break_char) ≡ false
    → (d : Conn) × (get_ack c ≡ ok (some (some a), d)) × (chars d ≡ rest) × SameOutput c d
unfolding get_ack
get_ack_lem c a rest h e =
    let (d, read, left, same, less) = get_rsp_char-cons c a rest h in (d, rw (read, e), left, same)

-- `s`, `n` times.
unfoldable pub repeated : ℕ → Bytes → Bytes
repeated zero s = []
repeated (suc n) s = s ++ repeated n s

-- An answer that asks for the frame again.
abbrev pub AsksAgain : ℕ → Type 0
AsksAgain a = ((a == b'+') ≡ false) × ((a == break_char) ≡ false)

put_pkt_loop_answers :
    (nacks : Bytes) (fuel : ℕ) (pkt : Bytes) (c : Conn) (rest : Bytes)
    → c.no_ack_mode ≡ false
    → length nacks < fuel
    → length nacks * length (frame pkt) + length (frame pkt) ≤ c.room
    → All AsksAgain nacks
    → chars c ≡ nacks ++ (b'+' ∷ rest)
    → (d : Conn) × (put_pkt_loop fuel pkt c ≡ ok (some tt, d))
      × (chars d ≡ rest)
      × (d.sent ≡ c.sent ++ repeated (suc (length nacks)) (frame pkt))
unfolding put_pkt_loop repeated
put_pkt_loop_answers nacks zero pkt c rest mode enough h all answers = absurd (omega arith)
put_pkt_loop_answers [] (suc fuel) pkt c rest mode enough h all answers =
    let c₁ = wrote (frame pkt) c in
    let (d, read, left, same) =
      get_ack_lem c₁ b'+' rest (chars-wrote (frame pkt) c ∙ answers) refl in
    let mode₁ : c₁.no_ack_mode ≡ false = unfold wrote in mode in
    (
      d,
      rw (put_frame_lem pkt c (omega arith)) (if_false_run _ _ _ c₁ mode₁ ∙ rw read),
      left,
      same.sent_eq ∙ unfold wrote in rw append-nil refl,
    )
put_pkt_loop_answers (a ∷ nacks) (suc fuel) pkt c rest mode enough h all answers =
    let c₁ = wrote (frame pkt) c in
    let room₁ = room-wrote (frame pkt) c in
    let (d, read, left, same) =
      get_ack_lem c₁ a (nacks ++ (b'+' ∷ rest)) (chars-wrote (frame pkt) c ∙ answers) all.0.1 in
    let mode₁ : c₁.no_ack_mode ≡ false = unfold wrote in mode in
    let sent₁ : c₁.sent ≡ c.sent ++ frame pkt = unfold wrote in refl in
    let (e, again, left', sent) =
      put_pkt_loop_answers nacks fuel pkt d rest (same.mode_eq ∙ mode₁) (omega arith)
        (omega (arith, same.room_eq)) all.1 left in
    (
      e,
      rw (put_frame_lem pkt c (omega arith))
          (if_false_run _ _ _ c₁ mode₁ ∙ rw (read, all.0.0) again),
      left',
      sent ∙ rw (same.sent_eq, sent₁, append_assoc),
    )

-- With acknowledgements, if the characters to come are any number of answers that are neither `+`
-- nor a break, then `+`, and the other side takes as many frames as there are answers, `putPkt`
-- succeeds, sends the frame once for each answer, and consumes exactly these answers.
pub put_pkt_answers :
    (pkt : Bytes) (c : Conn) (nacks rest : Bytes)
    → c.no_ack_mode ≡ false
    → length nacks * length (frame pkt) + length (frame pkt) ≤ c.room
    → All AsksAgain nacks
    → chars c ≡ nacks ++ (b'+' ∷ rest)
    → (d : Conn) × (put_pkt pkt c ≡ ok (some tt, d))
      × (chars d ≡ rest)
      × (d.sent ≡ c.sent ++ repeated (suc (length nacks)) (frame pkt))
unfolding put_pkt
put_pkt_answers pkt c nacks rest mode h all answers =
    put_pkt_loop_answers nacks (fuel_of c) pkt c rest mode
      (omega (arith, length-chars-le c, ap length answers, length-append nacks (b'+' ∷ rest))) h all
      answers
