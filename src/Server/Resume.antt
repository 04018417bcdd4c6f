-- ===== src/Server/Resume.antt =====
-- lib/server/GdbServer.cpp: the requests that make the cores run, the replies to system calls and
-- the `v` packets, and those that kill a core.
use embdebug.Base.{
  Bool, ℕ, zero, suc, ◌+◌, ◌-◌, ◌%◌, ◌^◌, true, false, not, ◌||◌, List, [], ◌∷◌, ◌++◌, Option, none,
  some, codes, eq_bytes, ◌==◌, if◌then◌else◌, length, drop,
}
use embdebug.Base.Int.{ℤ, pos, negsuc, eq_ℤ, to_int32, to_uint32}
use embdebug.Base.Outcome.{ok, fault, assert, fatal_error}
use embdebug.Cores.{
  CoreState, set_resume_type, core_num2pid, pid2core_num, core_at, update_core, kill_core_num,
}
use embdebug.Hex.{is_hex_str, hex2val}
use embdebug.Packet.{add_data, add_string}
use embdebug.Server.Registers.{rsp_report_exception}
use embdebug.Server.Run.{have_break, do_core_actions}
use embdebug.Server.Scan.{c_string}
use embdebug.Server.Signals.{TargetSignal}
use embdebug.Server.State.{
  Env, exit_on_kill, reset_on_kill, Act, ◌>>=◌, ◌>>◌, ret, lift, get, modify, on_target, put, close,
}
use embdebug.Strings.{starts_with}
use embdebug.SyscallReply.{SyscallReply}
use embdebug.SyscallReply
use embdebug.Target.Enums.{ResumeType}
use embdebug.VCont.{VContActions, get_core_action}
use embdebug.VCont

-- The switch of `rspVCont`; none is its default branch.
unfoldable pub action_type : ℕ → Option ResumeType
action_type action =
    if action == 0
    then some ResumeType.none
    else if action == b'c' || action == b'C'
    then some ResumeType.continue
    else if action == b's' || action == b'S'
    then some ResumeType.step
    else none

-- A dead core does nothing.
abbrev pub live_type : CoreState → ResumeType → ResumeType
live_type c type = if not c.is_live then ResumeType.none else type

-- The conversion of an `int` to a 64-bit register.
abbrev pub to_register : ℤ → ℕ
to_register (pos n) = n % 2 ^ 64
to_register (negsuc n) = (2 ^ 64 - 1 - n) % 2 ^ 64

-- The members of a new `SyscallReplyPacket`; only `mValid` is set.
abbrev pub new_reply : SyscallReply
new_reply = record { valid = false; retcode = pos 0; has_ctrl_c = false }

module _ {e : Env} where
  -- `rspSyscallReply` for a valid reply that has no break: the result goes to register 10.
  unfoldable pub write_retcode : ℤ → Act e (Unit {0})
  write_retcode retcode =
      if eq_ℤ retcode (negsuc 0)
      then ret tt
      else (do size ← on_target (e.cpu.write_register 10 (to_register retcode)); ret tt)

  -- The client broke in.
  unfoldable pub break_reply : Act e (Unit {0})
  unfolding have_break rsp_report_exception
  break_reply = do
    halted ← on_target e.cpu.halt
    rsp_report_exception TargetSignal.int
    broken ← have_break
    ret tt

  unfoldable pub handle_reply : SyscallReply → Act e (Unit {0})
  unfolding write_retcode break_reply do_core_actions
  handle_reply p =
      if not p.valid
      then do_core_actions
      else (do write_retcode p.retcode; if p.has_ctrl_c then break_reply else do_core_actions)

  unfoldable pub rsp_syscall_reply : Act e (Unit {0})
  unfolding handle_reply c_string
  rsp_syscall_reply = do
    s ← get
    lift (assert s.handling_syscall)
    modify (λ s. record s { handling_syscall = false })
    handle_reply (SyscallReply.parse (c_string s.pkt) new_reply)

  -- The body of the loop of `rspVCont` behind its switch, in front of the next rounds; none is its
  -- early return.
  unfoldable pub assign_core :
      ℕ
      → List ResumeType
      → (List ResumeType → Act e (Option (List ResumeType)))
      → Option ResumeType
      → Act e (Option (List ResumeType))
  unfolding core_at update_core
  assign_core i types more none = ret none
  assign_core i types more (some asked) = do
    s ← get
    core ← lift (core_at i s.cores)
    modify
        (λ s. record s { cores = update_core i (set_resume_type (live_type core asked)) s.cores })
    more (types ++ (live_type core asked ∷ []))

  -- The loop, from core `i` on, for the cores that are left.
  unfoldable pub core_actions :
      VContActions → ℕ → ℕ → List ResumeType → Act e (Option (List ResumeType))
  unfolding get_core_action action_type assign_core
  core_actions actions zero i types = ret (some types)
  core_actions actions (suc left) i types =
      let more = λ (types : List ResumeType). core_actions actions left (i + 1) types in
      do
        action ← lift (get_core_action (core_num2pid i) actions)
        assign_core i types more (action_type action)

  unfoldable pub run_actions : List ResumeType → Act e (Unit {0})
  unfolding do_core_actions
  run_actions types = do
    s ← get
    lift (if not (length types == s.cores.num_cores) then fault fatal_error else ok tt)
    prepared ← on_target (e.cpu.prepare types)
    do_core_actions

  unfoldable pub rsp_vcont : Act e (Unit {0})
  unfolding core_actions run_actions put c_string
  rsp_vcont = do
    s ← get
    actions ← lift (VCont.parse (c_string s.pkt))
    if not actions.valid then put (codes "E01") else (do
      types ← core_actions actions s.cores.num_cores 0 []
      elim types [ none ↦ put (codes "E01") | some types ↦ run_actions types ])

  -- The answer to a kill that succeeded.
  unfoldable pub killed : Act e (Unit {0})
  unfolding put close
  killed = do
    put (codes "OK")
    s ← get
    if not (s.cores.live_cores == 0) then ret tt else (do
      close
      modify (λ s. elim s.kill_behaviour [
        | reset_on_kill ↦ s
        | exit_on_kill ↦ record s { exit_server = true }
      ]))

  -- `killCoreNum` for the core of a process.
  unfoldable pub kill_pid : ℕ → Act e Bool
  unfolding kill_core_num
  kill_pid pid s =
      let (found, cores) = kill_core_num (pid2core_num pid) s.cores in
      ok (found, record s { cores = cores })

  unfoldable pub rsp_vkill : Act e (Unit {0})
  unfolding killed kill_pid put c_string
  rsp_vkill = do
    s ← get
    str ← ret (c_string (drop 6 s.pkt))
    if not (is_hex_str str (length str)) then put (codes "E01") else (do
      val ← lift (hex2val str (length str))
      found ← kill_pid (to_uint32 (to_int32 val))
      if not found then put (codes "E01") else killed)

  unfoldable pub rsp_vpkt : Act e (Unit {0})
  unfolding rsp_vcont rsp_vkill put
  rsp_vpkt = do
    s ← get
    if eq_bytes s.pkt (codes "vCont?")
        then put (codes "vCont;c;C;s;S")
        else if starts_with s.pkt (codes "vCont")
        then rsp_vcont
        else if starts_with s.pkt (codes "vKill;")
        then rsp_vkill
        else put []

  -- The requests `c`, `C`, `s` and `S`, which become a `vCont` packet.
  unfoldable pub rsp_continue : Act e (Unit {0})
  unfolding rsp_vpkt add_data add_string
  rsp_continue = do
    modify (λ s. record s {
      pkt = add_data e.size (add_string e.size [] (codes "vCont;")) s.pkt (length s.pkt);
    })
    rsp_vpkt
