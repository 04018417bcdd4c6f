-- ===== src/Server/Registers.antt =====
-- lib/server/GdbServer.cpp: the requests `g`, `G`, `p` and `P` for registers.
use embdebug.Base.{
  ℕ, zero, suc, ◌+◌, ◌*◌, ◌%◌, ◌^◌, true, [], none, some, Bytes, codes, leb, if◌then◌else◌, length,
  drop, take,
}
use embdebug.Base.Outcome.{Outcome, fault, undefined, assertion}
use embdebug.Hex.{reg_val2hex, hex2reg_val, is_hex_str}
use embdebug.Packet.{add_data}
use embdebug.Server.Scan.{c_string, scan_number, scan_assignment}
use embdebug.Server.Signals.{TargetSignal, exception_text}
use embdebug.Server.State.{Env, Act, ◌>>=◌, ◌>>◌, ret, lift, get, on_target, put}

-- `hex2RegVal` on the array `valstr`, which holds a text of up to 16 characters and its NUL. Where
-- the digits of the register go on behind the NUL, the array is not initialised there; the first
-- check ends the program if it meets the NUL.
unfoldable pub text_val : Bytes → ℕ → Outcome ℕ
text_val text byte_size =
    if leb (byte_size * 2) (length text)
    then hex2reg_val text byte_size true
    else if is_hex_str text byte_size
    then fault undefined
    else fault assertion

module _ {e : Env} where
  -- `rspReportException`.
  unfoldable pub rsp_report_exception : TargetSignal → Act e (Unit {0})
  unfolding put
  rsp_report_exception sig = do
    s ← get
    text ← lift (exception_text s.have_multi_proc (e.cpu.current_cpu s.target) sig)
    put text

  -- The loop of `rspReadAllRegs`, from register `reg` on, for the registers that are left.
  unfoldable pub read_regs : ℕ → ℕ → Bytes → Act e Bytes
  read_regs zero reg response = ret response
  read_regs (suc left) reg response =
      let more = λ (response : Bytes). read_regs left (reg + 1) response in
      do
        (byte_size, val) ← on_target (e.cpu.read_register reg)
        result ← lift (reg_val2hex val byte_size true)
        more (add_data e.size response result (byte_size * 2))

  unfoldable pub rsp_read_all_regs : Act e (Unit {0})
  unfolding read_regs put
  rsp_read_all_regs = do s ← get; response ← read_regs s.num_regs 0 []; put response

  -- The loop of `rspWriteAllRegs`; what a read behind the packet's text gives is NUL.
  unfoldable pub write_regs : ℕ → ℕ → ℕ → Bytes → Act e (Unit {0})
  write_regs zero reg byte_size text = ret tt
  write_regs (suc left) reg byte_size text =
      let more = write_regs left (reg + 1) byte_size (drop (byte_size * 2) text) in
      do
        val ← lift (hex2reg_val text byte_size true)
        size ← on_target (e.cpu.write_register reg val)
        more

  unfoldable pub rsp_write_all_regs : Act e (Unit {0})
  unfolding write_regs put
  rsp_write_all_regs = do
    s ← get
    write_regs s.num_regs 0 (e.cpu.register_size s.target) (drop 1 s.pkt)
    put (codes "OK")

  -- `rspReadReg` behind the parse; the register is an `unsigned int`.
  unfoldable pub read_reg : ℕ → Act e (Unit {0})
  unfolding put
  read_reg reg = do
    (byte_size, val) ← on_target (e.cpu.read_register reg)
    result ← lift (reg_val2hex val byte_size true)
    put (take (byte_size * 2) result)

  unfoldable pub rsp_read_reg : Act e (Unit {0})
  unfolding scan_number read_reg put
  rsp_read_reg = do
    s ← get
    elim (scan_number b'p' s.pkt) [ none ↦ put (codes "E01") | some reg ↦ read_reg (reg % 2 ^ 32) ]

  unfoldable pub write_reg : ℕ → Bytes → Act e (Unit {0})
  unfolding text_val put
  write_reg reg text = do
    s ← get
    val ← lift (text_val text (e.cpu.register_size s.target))
    size ← on_target (e.cpu.write_register reg val)
    put (codes "OK")

  unfoldable pub rsp_write_reg : Act e (Unit {0})
  unfolding c_string scan_assignment write_reg put
  rsp_write_reg = do
    s ← get
    elim (scan_assignment (c_string s.pkt)) [
      | none ↦ put (codes "E01")
      | some (reg, text) ↦ write_reg (reg % 2 ^ 32) text
    ]
