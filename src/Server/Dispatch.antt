-- ===== src/Server/Dispatch.antt =====
-- lib/server/GdbServer.cpp, `rspClientRequest`: the choice of the handler for a packet by its first
-- character, with the requests `?`, `H` and `Q`.
use embdebug.Base.{
  ℕ, ◌+◌, ◌-◌, ◌%◌, ◌^◌, Bool, true, false, not, ◌||◌, [], none, some, Bytes, codes, eq_bytes, ◌==◌,
  if◌then◌else◌, drop, get_elem?,
}
use embdebug.Base.Int.{ℤ, pos, to_uint32}
use embdebug.Base.Outcome.{Outcome, ok, fault, assertion, fatal_error}
use embdebug.Cores.{core_at}
use embdebug.Ptid.{Ptid, decode, crystalize}
use embdebug.Server.Access.{rsp_read_mem, rsp_write_mem, rsp_write_mem_bin}
use embdebug.Server.Monitor.{rsp_command}
use embdebug.Server.Query.{rsp_query, tid_default}
use embdebug.Server.Registers.{
  rsp_report_exception, rsp_read_all_regs, rsp_write_all_regs, rsp_read_reg, rsp_write_reg,
}
use embdebug.Server.Resume.{rsp_syscall_reply, rsp_continue, rsp_vpkt}
use embdebug.Server.Scan.{c_string}
use embdebug.Server.Signals.{TargetSignal, StopMode}
use embdebug.Server.State.{Env, Act, ◌>>=◌, ◌>>◌, ret, stop, lift, get, modify, put, close}
use embdebug.Strings.{starts_with}
use embdebug.Target.Enums.{ResumeRes}

-- `PID_DEFAULT`.
abbrev pub pid_default : ℤ
pid_default = pos 1

-- The member functions of the class `Ptid` for the request `Hg`; the identifier afterwards.
unfoldable pub choose_ptid : Bytes → Ptid → Outcome (Bool × Ptid)
unfolding decode crystalize
choose_ptid text p = elim (decode text p) [
  | fault x ↦ fault x
  | ok (decoded, q) ↦ ok (if not decoded then (false, q) else crystalize pid_default tid_default q)
]

module _ {e : Env} where
  -- The request `?`.
  unfoldable pub stop_reply : ResumeRes → Act e (Unit {0})
  unfolding rsp_report_exception
  stop_reply ResumeRes.interrupted = rsp_report_exception TargetSignal.trap
  stop_reply _ = stop fatal_error

  unfoldable pub rsp_stop_reason : Act e (Unit {0})
  unfolding stop_reply core_at
  rsp_stop_reason = do
    s ← get
    core ← lift (core_at (e.cpu.current_cpu s.target) s.cores)
    stop_reply core.stop_reason

  -- The request `Hg`: the current core is the one of the process.
  unfoldable pub set_thread : Act e (Unit {0})
  unfolding choose_ptid put c_string
  set_thread = do
    s ← get
    (chosen, ptid) ← lift (choose_ptid (c_string (drop 2 s.pkt)) s.ptid)
    modify (λ s. record s { ptid = ptid })
    if not chosen then put (codes "E01") else (do
      modify (λ s. record s {
        target = e.cpu.set_current_cpu ((to_uint32 ptid.pid + 2 ^ 32 - 1) % 2 ^ 32) s.target;
      })
      put (codes "OK"))

  -- `getData()[n]`, which asserts that there is such a character.
  unfoldable pub pkt_char : ℕ → Act e ℕ
  pkt_char n = do s ← get; elim (get_elem? s.pkt n) [ none ↦ stop assertion | some c ↦ ret c ]

  unfoldable pub rsp_select : Act e (Unit {0})
  unfolding pkt_char set_thread put
  rsp_select = do
    op ← pkt_char 1
    if op == b'c' then put [] else if op == b'g' then set_thread else put (codes "E02")

  unfoldable pub set_stop_mode : ℕ → Act e (Unit {0})
  unfolding put
  set_stop_mode digit =
      if digit == b'0'
      then modify (λ s. record s { stop_mode = StopMode.all_stop }) >> put (codes "OK")
      else if digit == b'1'
      then modify (λ s. record s { stop_mode = StopMode.non_stop }) >> put (codes "OK")
      else put (codes "E01")

  unfoldable pub rsp_set : Act e (Unit {0})
  unfolding pkt_char set_stop_mode put starts_with
  rsp_set = do
    s ← get
    if starts_with s.pkt (codes "QNonStop:")
        then (do digit ← pkt_char 9; set_stop_mode digit)
        else if eq_bytes s.pkt (codes "QStartNoAckMode")
        then modify (λ s. record s { link = e.rsp.set_no_ack_mode true s.link }) >> put (codes "OK")
        else put []

  -- `rspRemoveMatchpoint` and `rspInsertMatchpoint`.
  unfoldable pub rsp_remove_matchpoint : Act e (Unit {0})
  unfolding put
  rsp_remove_matchpoint = put []

  unfoldable pub rsp_insert_matchpoint : Act e (Unit {0})
  unfolding put
  rsp_insert_matchpoint = put []

  -- The cases that the handlers of memory and registers stand behind, and the rest of the switch.
  unfoldable pub dispatch_data : ℕ → Act e (Unit {0})
  unfolding rsp_read_all_regs rsp_write_all_regs rsp_read_mem rsp_write_mem rsp_read_reg
      rsp_write_reg rsp_write_mem_bin rsp_remove_matchpoint rsp_insert_matchpoint put
  dispatch_data c =
      if c == b'g'
      then rsp_read_all_regs
      else if c == b'G'
      then rsp_write_all_regs
      else if c == b'm'
      then rsp_read_mem
      else if c == b'M'
      then rsp_write_mem
      else if c == b'p'
      then rsp_read_reg
      else if c == b'P'
      then rsp_write_reg
      else if c == b'X'
      then rsp_write_mem_bin
      else if c == b'z'
      then rsp_remove_matchpoint
      else if c == b'Z'
      then rsp_insert_matchpoint
      else put []

  -- The switch of `rspClientRequest`, on the first character.
  unfoldable pub dispatch : ℕ → Act e (Unit {0})
  unfolding rsp_stop_reason rsp_syscall_reply rsp_continue rsp_select rsp_report_exception rsp_query
      rsp_command rsp_set rsp_vpkt dispatch_data put close
  dispatch c =
      if c == b'!' || c == b'T'
      then put (codes "OK")
      else if c == b'?'
      then rsp_stop_reason
      else if c == b'A'
      then put (codes "E01")
      else if c == b'F'
      then rsp_syscall_reply
      else if c == b'c' || c == b'C' || c == b's' || c == b'S'
      then rsp_continue
      else if c == b'D'
      then put (codes "OK") >> close
      else if c == b'H'
      then rsp_select
      else if c == b'i' || c == b'I'
      then rsp_report_exception TargetSignal.trap
      else if c == b'q'
      then rsp_query rsp_command
      else if c == b'Q'
      then rsp_set
      else if c == b'v'
      then rsp_vpkt
      else dispatch_data c

  unfoldable pub handle_pkt : Act e (Unit {0})
  unfolding pkt_char dispatch
  handle_pkt = do c ← pkt_char 0; dispatch c
