-- ===== src/Server/Wire/Memory.antt =====
-- lib/server/GdbServer.cpp, `rspReadMem`, from the frame of the request to that of the reply.
use embdebug.Base.{
  ℕ, ◌*◌, ◌/◌, ◌%◌, ◌^◌, ◌<◌, ◌≡◌, refl, sym, ◌∙◌, ap, true, false, [], ◌∷◌, ◌++◌, some, Bytes,
  arith, length, append_assoc, All, Bool,
}
use embdebug.Base.Outcome.{ok}
use embdebug.Escape.{rsp_unescape}
use embdebug.Hex.{hex2ascii, is_xdigit}
use embdebug.Hex.Digit.{hex_digit, hex_digit-is_xdigit}
use embdebug.Hex.Text.{AllBytes, hex_text, length-hex_text}
use embdebug.Hex.Value.{val_text, val_text-All}
use embdebug.Connection.Monad.{Conn}
use embdebug.Connection.Reads.{chars}
use embdebug.Connection.Writes.{escape, frame}
use embdebug.Connection.Get.{IsNoise}
use embdebug.Connection.Receive.{ack_of}
use embdebug.Connection.RoundTrip.{get_pkt-frame}
use embdebug.Connection.{is_escaped, get_pkt}
use embdebug.Server.Access.{rsp_read_mem}
use embdebug.Server.Dispatch.{handle_pkt}
use embdebug.Server.Loop.{rsp_client_request}
use embdebug.Server.Memory.{rsp_read_mem-hex_text}
use embdebug.Server.Range.{range_text}
use embdebug.Server.State.{Clock, Env, Server, ◌>>=◌, get, ret}
use embdebug.Server.Wire.{wired}
use embdebug.Server.Wire.Answer.{with_conn, put-frame, rsp_client_request-frame}
use embdebug.Target.Access.{Target}

-- A byte that needs no escape.
abbrev IsPlain : ℕ → Type 0
IsPlain c = (c < 256) × (is_escaped c ≡ false)

xdigit-IsPlain : (c : ℕ) → is_xdigit c ≡ true → IsPlain c
unfolding is_xdigit is_escaped
xdigit-IsPlain c h = ground arith

plain_text : (s : Bytes) → All IsPlain s → (escape s ≡ s) × AllBytes s
unfolding escape
plain_text [] h = (refl, tt)
plain_text (c ∷ s) h =
    let (same, bytes) = plain_text s h.1 in (rw (h.0.1, same) refl, (h.0.0, bytes))

All-IsPlain : (s : Bytes) → All (λ c. is_xdigit c ≡ true) s → All IsPlain s
All-IsPlain [] h = tt
All-IsPlain (c ∷ s) h = (xdigit-IsPlain c h.0, All-IsPlain s h.1)

append-IsPlain : (s t : Bytes) → All IsPlain s → All IsPlain t → All IsPlain (s ++ t)
append-IsPlain [] t h k = k
append-IsPlain (c ∷ s) t h k = (h.0, append-IsPlain s t h.1 k)

range_text-IsPlain : (addr len : ℕ) → All IsPlain (range_text b'm' addr len [])
unfolding is_escaped
range_text-IsPlain addr len = (
  (omega arith, refl),
  append-IsPlain (val_text addr) (b',' ∷ (val_text len ++ []))
      (All-IsPlain (val_text addr) (val_text-All addr))
      (
        (omega arith, refl),
        append-IsPlain (val_text len) [] (All-IsPlain (val_text len) (val_text-All len)) tt,
      ),
)

hex_text-IsPlain : (s : Bytes) → AllBytes s → All IsPlain (hex_text s)
unfolding hex_text
hex_text-IsPlain [] h = tt
hex_text-IsPlain (b ∷ s) h = (
  xdigit-IsPlain (hex_digit (b / 16)) (hex_digit-is_xdigit (b / 16) (omega (arith, h.0))),
  (
    xdigit-IsPlain (hex_digit (b % 16)) (hex_digit-is_xdigit (b % 16) (omega arith)),
    hex_text-IsPlain s h.1,
  ),
)

handle_pkt_m :
    {e : Env} (s : Server e) (rest : Bytes) → s.pkt ≡ b'm' ∷ rest → handle_pkt s ≡ rsp_read_mem s
unfolding handle_pkt ◌>>=◌ get ret
handle_pkt_m s rest h = rw h refl

ack_of-IsNoise : (mode : Bool) → All IsNoise (ack_of mode)
ack_of-IsNoise true = tt
ack_of-IsNoise false = (refl, tt)

module _ {T C Duration Instant : Type 0} {cpu : Target T} {clock : Clock C Duration Instant}
    {size fuel : ℕ} where
  -- The two ends of a wire. The request `m<addr>,<length>` arrives at the server, behind noise
  -- without `$` and in front of the `+` that the other end sends where answers are expected; the
  -- numbers are of 32 bits, the packet size has room for the request and for twice the length, each
  -- end takes what the other one sends, and the target's `read` succeeds with bytes. Then
  -- `rspClientRequest` returns, has sent its answer and the frame of the reply, has consumed just
  -- what is named, and has left the target as `read` did. And `getPkt` at the other end, where this
  -- arrives, delivers a text from which `rspUnescape` and `hex2Ascii` give the bytes of the memory.
  pub rsp_client_request-get_pkt :
      (s : Server (wired cpu clock size fuel)) (client : Conn) (addr : ℕ)
      (buf noise rest more : Bytes) (t : T)
      → addr < 2 ^ 32
      → length buf < 2 ^ 32
      → 2 * length buf < size
      → length (range_text b'm' addr (length buf) []) < size
      → AllBytes buf
      → cpu.read addr (length buf) s.target ≡ ((length buf, buf), t)
      → All IsNoise noise
      → chars s.link.conn
        ≡ noise
          ++ (frame (range_text b'm' addr (length buf) [])
              ++ (ack_of s.link.conn.no_ack_mode ++ rest))
      → length (frame (hex_text buf)) < s.link.conn.room
      → chars client ≡ ack_of s.link.conn.no_ack_mode ++ (frame (hex_text buf) ++ more)
      → 0 < client.room
      → (s' : Server (wired cpu clock size fuel)) × (rsp_client_request s ≡ ok (tt, s'))
        × (s'.target ≡ t)
        × (chars s'.link.conn ≡ rest)
        × (s'.link.conn.sent
            ≡ s.link.conn.sent ++ (ack_of s.link.conn.no_ack_mode ++ frame (hex_text buf)))
        × (text : Bytes) × (client' : Conn) × (get_pkt size client ≡ ok (some text, client'))
        × (hex2ascii (rsp_unescape text) ≡ ok buf)
        × (chars client' ≡ more)
  rsp_client_request-get_pkt s client addr buf noise rest more t small short fits brief bytes answer
        quiet arrives room back space =
      let request = range_text b'm' addr (length buf) [] in
      let (same, plain) = plain_text request (range_text-IsPlain addr (length buf)) in
      let (same', plain') = plain_text (hex_text buf) (hex_text-IsPlain buf bytes) in
      let double = length-hex_text buf in
      let (d, run, left, out, kept, mode) =
        rsp_client_request-frame s noise request (ack_of s.link.conn.no_ack_mode ++ rest) plain
          (rw same brief) quiet (omega arith) arrives in
      let s₁ = with_conn d (record s { pkt = escape request }) in
      let (read, text) = rsp_read_mem-hex_text s₁ addr buf t same small short fits bytes answer in
      let s₂ = record s₁ { target = t } in
      let (d', done, left', out') =
        put-frame (hex_text buf) s₂ rest (omega arith)
          (left ∙ ap (λ b. ack_of b ++ rest) (sym mode)) in
      let (text', client', got, good, left'', _) =
        get_pkt-frame size client (ack_of s.link.conn.no_ack_mode) (hex_text buf) more plain'
          (rw (same', double) fits) (ack_of-IsNoise s.link.conn.no_ack_mode) space back in
      (
        record (with_conn d' s₂) { replies = s₂.replies ++ (hex_text buf ∷ []) },
        run ∙ handle_pkt_m s₁ _ same ∙ read ∙ done,
        refl,
        left',
        out' ∙ ap (λ x. x ++ frame (hex_text buf)) out ∙ append_assoc s.link.conn.sent _ _,
        text',
        client',
        got,
        ap hex2ascii good ∙ text,
        left'',
      )
