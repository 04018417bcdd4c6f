-- ===== src/Connection.antt =====
-- lib/server/AbstractConnection.cpp and .h: packets on top of single characters. The routines for
-- single characters, `getRspCharRaw` and `putRspCharRaw`, are virtual: they are a script, of what
-- arrives and of how many characters can still be sent. Trace output is left out.
pub mod Monad
pub mod Reads
pub mod Writes
pub mod Put
pub mod Get
pub mod Receive
pub mod RoundTrip
pub mod Bounds
pub mod Overrun
pub mod Break
use embdebug.Base.{
  ℕ, zero, suc, ◌+◌, ◌-◌, ◌*◌, ◌/◌, ◌%◌, ◌^◌, bit_xor, Bool, true, false, not, ◌||◌, List, [], ◌∷◌,
  ◌++◌, Option, none, some, Bytes, ltb, ◌==◌, if◌then◌else◌, length,
}
use embdebug.Base.Outcome.{Outcome, ok, fault, assertion, no_fuel, assert}
use embdebug.Hex.{is_hex_str, char2hex, hex2char}
use Monad.{Event, char, quiet, Conn, Io, ret, fail, give_up, lift, ◌>>=◌, ◌>>◌}

-- A read that blocks waits until a character arrives; one that does not returns -1 (`none`)
-- where none is there yet. Both return -1 once the connection has failed.
next_char : Bool → List Event → Option ℕ × List Event
next_char blocking [] = (none, [])
next_char blocking (char c ∷ events) = (some c, events)
next_char blocking (quiet ∷ events) = if blocking then next_char blocking events else (none, events)

get_rsp_char_raw : Bool → Conn → Option ℕ × Conn
unfolding next_char
get_rsp_char_raw blocking c =
    let (ch, events) = next_char blocking c.arriving in (ch, record c { arriving = events })

put_rsp_char_raw : ℕ → Conn → Bool × Conn
put_rsp_char_raw ch c =
    if ltb 0 c.room
    then (true, record c { room = c.room - 1; sent = c.sent ++ (ch ∷ []) })
    else (false, c)

-- Fails where the C++ functions return false, or -1.
unfoldable pub put_rsp_char : ℕ → Io (Unit {0})
unfolding put_rsp_char_raw
put_rsp_char ch c =
    let (sent, c') = put_rsp_char_raw ch c in ok (if sent then some tt else none, c')

unfoldable pub get_rsp_char : Io ℕ
unfolding get_rsp_char_raw
get_rsp_char c = ok (
    if ltb 0 c.num_get_buf_chars
    then (some c.get_char_buf, record c { num_get_buf_chars = 0 })
    else get_rsp_char_raw true c)

-- `BREAK_CHAR`.
abbrev pub break_char : ℕ
break_char = 3

-- The first `if` of `haveBreak`, on what a read without blocking gave.
note_char : Option ℕ × Conn → Conn
note_char (none, c) = c
note_char (some ch, c) =
    if ch == break_char
    then record c { have_pending_break = true }
    else record c { get_char_buf = ch; num_get_buf_chars = 1 }

unfoldable pub have_break : Conn → Bool × Conn
unfolding note_char get_rsp_char_raw
have_break c =
    let c' =
      if not (c.have_pending_break || ltb 0 c.num_get_buf_chars)
      then note_char (get_rsp_char_raw false c)
      else c in
    if c'.have_pending_break then (true, record c' { have_pending_break = false }) else (false, c')

pub set_no_ack_mode : Bool → Conn → Conn
set_no_ack_mode mode c = record c { no_ack_mode = mode }

-- The first loop of `getPkt`.
unfoldable pub await_start : ℕ → Io (Unit {0})
unfolding get_rsp_char
await_start zero = give_up no_fuel
await_start (suc fuel) =
    let again = await_start fuel in do ch ← get_rsp_char; if ch == b'$' then ret tt else again

-- How the second loop ends: by `#`, or because the buffer is full.
pub data BodyEnd : Type 0 where
  hash : Bytes → ℕ → BodyEnd
  overran : Bytes → BodyEnd

-- The second loop of `getPkt`, on the builder's contents and the checksum so far.
unfoldable pub read_body : ℕ → ℕ → Bytes → ℕ → Io BodyEnd
unfolding get_rsp_char
read_body zero size buf checksum = give_up no_fuel
read_body (suc fuel) size buf checksum =
    let restart = read_body fuel size [] 0 in
    let more = λ (ch : ℕ). read_body fuel size (buf ++ (ch ∷ [])) ((checksum + ch) % 256) in
    if size - length buf == 0 then ret (overran buf) else do
      ch ← get_rsp_char
      if ch == b'$' then restart else if ch == b'#' then ret (hash buf checksum) else more ch

-- One of the two digits behind `#`.
unfoldable pub read_digit : Io ℕ
unfolding get_rsp_char
read_digit = do ch ← get_rsp_char; lift (assert (is_hex_str (ch ∷ []) 1)); lift (char2hex ch)

-- The checksum in the packet, an `unsigned char`.
unfoldable pub read_checksum : Io ℕ
unfolding read_digit
read_checksum = do hi ← read_digit; lo ← read_digit; ret ((hi * 2 ^ 4 % 256 + lo) % 256)

-- What stands behind the loops: a packet to deliver, or none and the loop goes on.
unfoldable pub acknowledge : Bytes → ℕ → Conn → Outcome (Option (Option Bytes) × Conn)
unfolding put_rsp_char read_checksum
acknowledge buf checksum = do
  xmitcsum ← read_checksum
  λ c.
      (if c.no_ack_mode
          then ret (some buf)
          else if not (checksum == xmitcsum)
          then put_rsp_char b'-' >> ret none
          else put_rsp_char b'+' >> ret (some buf))
        c

-- The end of a round of the outer loop: a packet is returned, or the loop goes on.
abbrev pub deliver : (Bytes → Io Bytes) → Bytes → Option Bytes → Io Bytes
deliver again buf none = again buf
deliver again buf (some pkt) = ret pkt

abbrev pub after_body : (Bytes → Io Bytes) → BodyEnd → Io Bytes
after_body again (overran buf) = again buf
after_body again (hash buf checksum) = acknowledge buf checksum >>= deliver again buf

-- The outer loop. `buf` is the builder `newPkt`, which is declared in front of the loop, and is
-- not erased when the loop begins again. `size` is `bufSize`.
unfoldable pub get_pkt_loop : ℕ → ℕ → Bytes → Io Bytes
get_pkt_loop zero size buf = give_up no_fuel
get_pkt_loop (suc fuel) size buf =
    let again = λ (buf : Bytes). get_pkt_loop fuel size buf in
    do await_start (suc fuel); end ← read_body (suc fuel) size buf 0; after_body again end

-- The bound on reads is one more than the characters that can still come: the buffered one and
-- those of the script.
abbrev pub fuel_of : Conn → ℕ
fuel_of c = suc (length c.arriving + c.num_get_buf_chars)

pub get_pkt : ℕ → Io Bytes
unfolding get_pkt_loop
get_pkt size c = get_pkt_loop (fuel_of c) size [] c

-- The characters that `putPkt` escapes.
unfoldable pub is_escaped : ℕ → Bool
is_escaped ch = ch == b'$' || ch == b'#' || ch == b'*' || ch == b'}'

-- The loop over the body; its result is the checksum.
unfoldable pub put_body : Bytes → ℕ → Io ℕ
unfolding put_rsp_char is_escaped
put_body [] checksum = ret checksum
put_body (ch ∷ pkt) checksum =
    let escaped = put_body pkt (((checksum + b'}') % 256 + bit_xor ch 0x20) % 256) in
    let plain = put_body pkt ((checksum + ch) % 256) in
    if is_escaped ch
    then put_rsp_char b'}' >> put_rsp_char (bit_xor ch 0x20) >> escaped
    else put_rsp_char ch >> plain

unfoldable pub put_frame : Bytes → Io (Unit {0})
unfolding put_rsp_char put_body
put_frame pkt = do
  put_rsp_char b'$'
  checksum ← put_body pkt 0
  put_rsp_char b'#'
  hi ← lift (hex2char (checksum / 2 ^ 4))
  put_rsp_char hi
  lo ← lift (hex2char (checksum % 16))
  put_rsp_char lo

-- The character behind a break, in the answer to a frame. A read that fails gives -1, here none,
-- which is no failure there: it is not `+`, so that the frame is sent again.
abbrev behind_break : Outcome (Option ℕ × Conn) → Outcome (Option (Option ℕ) × Conn)
behind_break (ok (none, c)) = ok (some none, c)
behind_break (ok (some ch, c)) =
    if ch == break_char then fault assertion else ok (some (some ch), c)
behind_break (fault x) = fault x

get_ack_behind_break : Io (Option ℕ)
unfolding get_rsp_char
get_ack_behind_break c = behind_break (get_rsp_char (record c { have_pending_break = true }))

-- The character that answers a frame.
unfoldable pub get_ack : Io (Option ℕ)
unfolding get_rsp_char get_ack_behind_break
get_ack = do ch ← get_rsp_char; if ch == break_char then get_ack_behind_break else ret (some ch)

abbrev pub is_plus : Option ℕ → Bool
is_plus none = false
is_plus (some ch) = ch == b'+'

unfoldable pub put_pkt_loop : ℕ → Bytes → Io (Unit {0})
unfolding put_frame get_ack
put_pkt_loop zero pkt = give_up no_fuel
put_pkt_loop (suc fuel) pkt =
    let again = put_pkt_loop fuel pkt in
    do
      put_frame pkt
      λ c.
          (if c.no_ack_mode
              then ret tt
              else do ack ← get_ack; if is_plus ack then ret tt else again)
            c

pub put_pkt : Bytes → Io (Unit {0})
unfolding put_pkt_loop
put_pkt pkt c = put_pkt_loop (fuel_of c) pkt c
