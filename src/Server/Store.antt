-- ===== src/Server/Store.antt =====
-- lib/server/GdbServer.cpp, `rspWriteMem`: what the target is told to write.
use embdebug.Base.{
  ℕ, ◌+◌, ◌*◌, ◌/◌, ◌%◌, ◌^◌, ◌<◌, ◌≡◌, refl, ◌∙◌, ap, true, [], ◌∷◌, none, some, Bytes, codes,
  arith, ==_refl, length,
}
use embdebug.Base.Outcome.{ok, undefined}
use embdebug.Bits.{or_nibble}
use embdebug.Hex.{is_hex_str}
use embdebug.Hex.Digit.{hex_digit, hex_digit-is_xdigit, char2hex-hex_digit}
use embdebug.Hex.Text.{AllBytes, hex_text, length-hex_text}
use embdebug.Server.Access.{write_bytes, write_mem, rsp_write_mem}
use embdebug.Server.Scan.{scan_range, find_char}
use embdebug.Server.State.{Env, Server, Act, ◌>>=◌, ◌>>◌, get, lift, ret, on_target, put, stop}
use embdebug.Target.Access.{Target}

-- The target after writes of single bytes, to one address after the other.
abbrev pub store_bytes : {T : Type 0} → Target T → ℕ → Bytes → T → T
store_bytes cpu addr [] t = t
store_bytes cpu addr (b ∷ buf) t =
    store_bytes cpu ((addr + 1) % 2 ^ 64) buf (cpu.write addr (b ∷ []) t).1

two_digits_lem :
    (b : ℕ) (rest : Bytes)
    → b < 256
    → is_hex_str (hex_digit (b / 16) ∷ hex_digit (b % 16) ∷ rest) 2 ≡ true
unfolding is_hex_str
two_digits_lem b rest h =
    rw (hex_digit-is_xdigit (b / 16) (omega arith), hex_digit-is_xdigit (b % 16) (omega arith)) refl

module _ {e : Env} where
  write_bytes_lem :
      (buf : Bytes) (addr : ℕ) (s : Server e)
      → AllBytes buf
      → write_bytes (length buf) addr (hex_text buf) s
        ≡ ok (tt, record s { target = store_bytes e.cpu addr buf s.target })
  unfolding write_bytes hex_text ◌>>=◌ ◌>>◌ lift ret on_target
  write_bytes_lem [] addr s h = refl
  write_bytes_lem (b ∷ buf) addr s h =
      let shifted : b / 16 * 2 ^ 4 % 256 ≡ b / 16 * 16 = omega (arith, h.0) in
      let whole : b / 16 * 16 + b % 16 ≡ b = omega arith in
      rw
        (
          two_digits_lem b (hex_text buf) h.0,
          char2hex-hex_digit (b / 16) (omega (arith, h.0)),
          char2hex-hex_digit (b % 16) (omega arith),
          shifted,
          or_nibble (b / 16) (b % 16) (omega arith),
          whole,
        )
        (write_bytes_lem buf ((addr + 1) % 2 ^ 64)
          (record s { target = (e.cpu.write addr (b ∷ []) s.target).1 }) h.1)

  write_mem_lem :
      (buf : Bytes) (addr : ℕ) (s : Server e)
      → AllBytes buf
      → length buf < 2 ^ 63
      → write_mem addr (length buf) (hex_text buf) s
        ≡ put (codes "OK") (record s { target = store_bytes e.cpu addr buf s.target })
  unfolding write_mem ◌>>◌ ◌>>=◌
  write_mem_lem buf addr s h short =
      let size : length buf * 2 % 2 ^ 64 ≡ length (hex_text buf) =
        omega (arith, length-hex_text buf) in
      rw (size, ==_refl (length (hex_text buf)), write_bytes_lem buf addr s h) refl

  -- `sscanf` reads an address and a length in the packet, below 2 ^ 63, and behind its first colon
  -- stands the hex text of as many bytes. Then `rspWriteMem` has the target write these bytes one
  -- by one, from the address on, and does nothing else but to put `OK`.
  pub rsp_write_mem-store_bytes :
      (s : Server e) (addr : ℕ) (buf : Bytes)
      → scan_range b'M' s.pkt ≡ some (addr, length buf)
      → find_char b':' s.pkt ≡ some (hex_text buf)
      → AllBytes buf
      → length buf < 2 ^ 63
      → rsp_write_mem s
        ≡ put (codes "OK") (record s { target = store_bytes e.cpu addr buf s.target })
  unfolding rsp_write_mem ◌>>=◌ get
  rsp_write_mem-store_bytes s addr buf range text h short =
      ap
        (λ r.
          (elim r as (λ r. Act e (Unit {0})) [
            | none ↦ put (codes "E01")
            | some (addr, len) ↦ elim (find_char b':' s.pkt) as (λ r. Act e (Unit {0})) [
              | none ↦ stop undefined
              | some text ↦ write_mem addr len text
            ]
          ])
            s)
        range
      ∙ ap
          (λ r.
            (elim r as (λ r. Act e (Unit {0})) [
              | none ↦ stop undefined
              | some text ↦ write_mem addr (length buf) text
            ])
              s)
          text
      ∙ write_mem_lem buf addr s h short
