-- ===== src/Server/Access.antt =====
-- lib/server/GdbServer.cpp: the requests `m`, `M` and `X` for memory.
use embdebug.Base.{
  ℕ, zero, suc, ◌+◌, ◌-◌, ◌*◌, ◌/◌, ◌%◌, ◌^◌, bit_and, bit_or, not, [], ◌∷◌, none, some, Bytes,
  codes, leb, ◌==◌, if◌then◌else◌, length, drop, take, get_or,
}
use embdebug.Base.Outcome.{undefined, assert}
use embdebug.Escape.{rsp_unescape}
use embdebug.Hex.{is_hex_str, char2hex, hex2char}
use embdebug.Packet.{add_char}
use embdebug.Server.Scan.{scan_range, find_char}
use embdebug.Server.State.{Env, Act, ◌>>=◌, ◌>>◌, ret, stop, lift, get, on_target, put}

module _ {e : Env} where
  -- The loop of `rspReadMem` over the bytes that were read.
  unfoldable pub hex_bytes : Bytes → Bytes → Act e Bytes
  hex_bytes response [] = ret response
  hex_bytes response (b ∷ buf) =
      let more = λ (r : Bytes). hex_bytes r buf in
      do
        hi ← lift (hex2char (b / 2 ^ 4))
        lo ← lift (hex2char (bit_and b 0xf))
        more (add_char e.size (add_char e.size response hi) lo)

  unfoldable pub read_mem : ℕ → ℕ → Act e (Unit {0})
  unfolding hex_bytes put
  read_mem addr len = do
    (count, buf) ← on_target (e.cpu.read addr len)
    response ← if len == count then hex_bytes [] (take len buf) else ret []
    put response

  -- The loop of `rspWriteMem`, for the bytes that are left.
  unfoldable pub write_bytes : ℕ → ℕ → Bytes → Act e (Unit {0})
  write_bytes zero addr text = ret tt
  write_bytes (suc left) addr text =
      let more = write_bytes left ((addr + 1) % 2 ^ 64) (drop 2 text) in
      do
        lift (assert (is_hex_str text 2))
        nyb1 ← lift (char2hex (get_or text 0 0))
        nyb2 ← lift (char2hex (get_or text 1 0))
        count ← on_target (e.cpu.write addr (bit_or (nyb1 * 2 ^ 4 % 256) nyb2 ∷ []))
        more

  unfoldable pub write_mem : ℕ → ℕ → Bytes → Act e (Unit {0})
  unfolding write_bytes put
  write_mem addr len text =
      if not (len * 2 % 2 ^ 64 == length text)
      then put (codes "E01")
      else write_bytes len addr text >> put (codes "OK")

  -- Without a colon `memchr` gives a null pointer, with which the code goes on.
  unfoldable pub rsp_write_mem : Act e (Unit {0})
  unfolding scan_range write_mem find_char put
  rsp_write_mem = do
    s ← get
    elim (scan_range b'M' s.pkt) [
      | none ↦ put (codes "E01")
      | some (addr, len) ↦ elim (find_char b':' s.pkt) [
        | none ↦ stop undefined
        | some text ↦ write_mem addr len text
      ]
    ]

  -- `rspWriteMemBin` behind the parse, on the unescaped bytes.
  unfoldable pub write_bin : ℕ → ℕ → Bytes → Act e (Unit {0})
  unfolding put
  write_bin addr len bytes = do
    count ← on_target (e.cpu.write addr (take len bytes))
    put (codes "OK")

  -- The address is an `uint32_t`. `take` of a length from the number of bytes up is all of them.
  unfoldable pub rsp_write_mem_bin : Act e (Unit {0})
  unfolding scan_range write_bin find_char put
  rsp_write_mem_bin = do
    s ← get
    elim (scan_range b'X' s.pkt) [
      | none ↦ put (codes "E01")
      | some (addr, len) ↦ elim (find_char b':' s.pkt) [
        | none ↦ stop undefined
        | some text ↦ write_bin (addr % 2 ^ 32) len (rsp_unescape text)
      ]
    ]

module _ (e : Env) where
  -- The length is cut so that the reply fits.
  abbrev pub readable : ℕ → ℕ
  readable len = if leb e.size (len * 2 % 2 ^ 64) then (e.size - 1) / 2 else len

module _ {e : Env} where
  unfoldable pub rsp_read_mem : Act e (Unit {0})
  unfolding scan_range read_mem put
  rsp_read_mem = do
    s ← get
    elim (scan_range b'm' s.pkt) [
      | none ↦ put (codes "E01")
      | some (addr, len) ↦ read_mem addr (readable e len)
    ]
