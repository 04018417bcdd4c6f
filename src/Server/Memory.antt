-- ===== src/Server/Memory.antt =====
-- lib/server/GdbServer.cpp, `rspReadMem`: the reply to a request for memory.
use embdebug.Base.{
  ℕ, ◌+◌, ◌*◌, ◌/◌, ◌%◌, ◌≤◌, ◌<◌, ◌^◌, ◌≡◌, refl, sym, ◌∙◌, ap, false, [], ◌∷◌, ◌++◌, append_assoc,
  append-nil, none, some, Bytes, codes, arith, leb, ==_refl, length, length-append, take,
}
use embdebug.Base.Outcome.{ok}
use embdebug.Bits.{and_nibble}
use embdebug.Hex.Digit.{hex_digit, hex2char_nibble}
use embdebug.Hex.Text.{AllBytes, hex_text, hex2ascii-hex_text}
use embdebug.Hex.{hex2ascii}
use embdebug.Packet.{add_char}
use embdebug.Server.Range.{range_text, scan_range-range_text}
use embdebug.Server.Scan.{scan_range}
use embdebug.Server.Access.{hex_bytes, readable, read_mem, rsp_read_mem}
use embdebug.Server.State.{Env, Server, Act, ◌>>=◌, ret, lift, get, on_target, put}

add_char_room :
    (size : ℕ) (buf : Bytes) (c : ℕ) → length buf < size → add_char size buf c ≡ buf ++ (c ∷ [])
unfolding add_char
add_char_room size buf c h = ground arith

take_all : (buf : Bytes) → take (length buf) buf ≡ buf
take_all [] = refl
take_all (b ∷ buf) = ap (λ s. b ∷ s) (take_all buf)

readable_small : (e : Env) (len : ℕ) → len < 2 ^ 32 → 2 * len < e.size → readable e len ≡ len
readable_small e len short fits =
    let double : len * 2 % 2 ^ 64 ≡ len * 2 = omega arith in
    let below : leb e.size (len * 2) ≡ false = ground arith in rw (double, below) refl

module _ {e : Env} where
  hex_bytes_lem :
      (buf response : Bytes) (s : Server e)
      → AllBytes buf
      → length response + 2 * length buf ≤ e.size
      → hex_bytes response buf s ≡ ok (response ++ hex_text buf, s)
  unfolding hex_bytes hex_text ret ◌>>=◌ lift
  hex_bytes_lem [] response s h room = ap (λ r. ok (r, s)) (sym (append-nil response))
  hex_bytes_lem (b ∷ buf) response s h room =
      let first = length-append response (hex_digit (b / 16) ∷ []) in
      let both = length-append (response ++ (hex_digit (b / 16) ∷ [])) (hex_digit (b % 16) ∷ []) in
      rw
        (
          hex2char_nibble (b / 16) (omega (arith, h.0)),
          and_nibble b,
          hex2char_nibble (b % 16) (omega arith),
          add_char_room e.size response (hex_digit (b / 16)) (omega arith),
          add_char_room e.size (response ++ (hex_digit (b / 16) ∷ [])) (hex_digit (b % 16))
              (omega arith),
          hex_bytes_lem buf ((response ++ (hex_digit (b / 16) ∷ [])) ++ (hex_digit (b % 16) ∷ [])) s
              h.1 (omega arith),
        )
        (ap (λ r. ok (r, s)) (simp append_assoc))

  read_mem_lem :
      (s : Server e) (addr : ℕ) (buf : Bytes) (t : e.T)
      → 2 * length buf < e.size
      → AllBytes buf
      → e.cpu.read addr (length buf) s.target ≡ ((length buf, buf), t)
      → read_mem addr (length buf) s ≡ put (hex_text buf) (record s { target = t })
  unfolding read_mem ◌>>=◌ on_target
  read_mem_lem s addr buf t fits bytes answer =
      let loop : hex_bytes [] buf (record s { target = t })
          ≡ ok (hex_text buf, record s { target = t }) =
        hex_bytes_lem buf [] (record s { target = t }) bytes (omega arith) in
      rw (answer, ==_refl (length buf), take_all buf, loop) refl

  dispatch :
      (s : Server e) (addr len : ℕ)
      → scan_range b'm' s.pkt ≡ some (addr, len)
      → rsp_read_mem s ≡ read_mem addr (readable e len) s
  unfolding rsp_read_mem ◌>>=◌ get
  dispatch s addr len range =
      ap
        (λ r.
          (elim r as (λ r. Act e (Unit {0})) [
            | none ↦ put (codes "E01")
            | some (a, l) ↦ read_mem a (readable e l)
          ])
            s)
        range

  -- The conditions: the packet is `m<addr>,<length>` with two 32-bit numbers in hex, twice the
  -- length is below the packet size, and the target's `read` at that address and of that length
  -- succeeds with bytes. Then `rspReadMem` does nothing but to put one packet, the hex text of
  -- these bytes, from which `hex2Ascii` gives the bytes back; the target is as `read` left it.
  pub rsp_read_mem-hex_text :
      (s : Server e) (addr : ℕ) (buf : Bytes) (t : e.T)
      → s.pkt ≡ range_text b'm' addr (length buf) []
      → addr < 2 ^ 32
      → length buf < 2 ^ 32
      → 2 * length buf < e.size
      → AllBytes buf
      → e.cpu.read addr (length buf) s.target ≡ ((length buf, buf), t)
      → (rsp_read_mem s ≡ put (hex_text buf) (record s { target = t }))
        × (hex2ascii (hex_text buf) ≡ ok buf)
  rsp_read_mem-hex_text s addr buf t text small short fits bytes answer =
      let range =
        ap (scan_range b'm') text ∙ scan_range-range_text b'm' addr (length buf) small short in
      let cut = ap (λ len. read_mem addr len s) (readable_small e (length buf) short fits) in
      (
        dispatch s addr (length buf) range ∙ cut ∙ read_mem_lem s addr buf t fits bytes answer,
        hex2ascii-hex_text buf bytes,
      )
