-- ===== src/Server/Wire/Answer.antt =====
-- lib/server/GdbServer.cpp and AbstractConnection.cpp: a request that arrives on the wire, and a
-- packet that answers it.
use embdebug.Base.{
  ℕ, ◌+◌, ◌≤◌, ◌<◌, ◌≡◌, refl, ◌∙◌, ap, [], ◌∷◌, ◌++◌, some, Bytes, arith, length, append-nil, All,
  Bool-cases, inl, inr,
}
use embdebug.Base.Outcome.{ok}
use embdebug.Hex.Text.{AllBytes}
use embdebug.Connection.Monad.{Conn}
use embdebug.Connection.Reads.{chars}
use embdebug.Connection.Writes.{escape, frame, wrote, chars-wrote}
use embdebug.Connection.Get.{IsNoise}
use embdebug.Connection.Receive.{ack_of}
use embdebug.Connection.RoundTrip.{get_pkt-frame_state}
use embdebug.Connection.Put.{put_pkt_no_ack, put_pkt_answers, repeated}
use embdebug.Connection.{put_pkt}
use embdebug.Server.Dispatch.{handle_pkt}
use embdebug.Server.Loop.{rsp_client_request}
use embdebug.Server.State.{Clock, Server, ◌>>=◌, ◌>>◌, modify, put, sent}
use embdebug.Server.Wire.{wired, on_conn}
use embdebug.Target.Access.{Target}

-- One frame, and the answer to it where answers are expected.
pub put_pkt-frame :
    (pkt : Bytes) (c : Conn) (rest : Bytes)
    → length (frame pkt) ≤ c.room
    → chars c ≡ ack_of c.no_ack_mode ++ rest
    → (d : Conn) × (put_pkt pkt c ≡ ok (some tt, d))
      × (chars d ≡ rest)
      × (d.sent ≡ c.sent ++ frame pkt)
put_pkt-frame pkt c rest h e = elim (Bool-cases c.no_ack_mode) [
  | inl m ↦ (
    wrote (frame pkt) c,
    put_pkt_no_ack pkt c m h,
    chars-wrote (frame pkt) c ∙ e ∙ ap (λ b. ack_of b ++ rest) m,
    unfold wrote in refl,
  )
  | inr m ↦
      let (d, done, left, sent) =
        put_pkt_answers pkt c [] rest m (omega arith) tt (e ∙ ap (λ b. ack_of b ++ rest) m) in
      (d, done, left, sent ∙ unfold repeated in ap (◌++◌ c.sent) (append-nil (frame pkt)))
]

module _ {T C Duration Instant : Type 0} {cpu : Target T} {clock : Clock C Duration Instant}
    {size fuel : ℕ} where
  abbrev pub with_conn :
      Conn → Server (wired cpu clock size fuel) → Server (wired cpu clock size fuel)
  with_conn d s = record s { link = record { conn = d; connected = s.link.connected } }

  pub put-frame :
      (reply : Bytes) (s : Server (wired cpu clock size fuel)) (rest : Bytes)
      → length (frame reply) ≤ s.link.conn.room
      → chars s.link.conn ≡ ack_of s.link.conn.no_ack_mode ++ rest
      → (d : Conn) × (put reply s
          ≡ ok (tt, record (with_conn d s) { replies = s.replies ++ (reply ∷ []) }))
        × (chars d ≡ rest)
        × (d.sent ≡ s.link.conn.sent ++ frame reply)
  unfolding put
  put-frame reply s rest h e =
      let (d, done, left, out) = put_pkt-frame reply s.link.conn rest h e in
      (d, ap (λ r. sent reply s (on_conn s.link.connected r)) done, left, out)

  -- `rspClientRequest` handles the escaped form of the packet that arrives.
  pub rsp_client_request-frame :
      (s : Server (wired cpu clock size fuel)) (noise request rest : Bytes)
      → AllBytes request
      → length (escape request) < size
      → All IsNoise noise
      → 0 < s.link.conn.room
      → chars s.link.conn ≡ noise ++ (frame request ++ rest)
      → (d : Conn) × (rsp_client_request s
          ≡ handle_pkt (with_conn d (record s { pkt = escape request })))
        × (chars d ≡ rest)
        × (d.sent ≡ s.link.conn.sent ++ ack_of s.link.conn.no_ack_mode)
        × (s.link.conn.room ≤ d.room + 1)
        × (d.no_ack_mode ≡ s.link.conn.no_ack_mode)
  unfolding rsp_client_request ◌>>=◌ ◌>>◌ modify
  rsp_client_request-frame s noise request rest bytes fits quiet room e =
      let (d, got, left, out, kept, mode) =
        get_pkt-frame_state size s.link.conn noise request rest bytes fits quiet room e in
      (d, rw got refl, left, out, kept, mode)
