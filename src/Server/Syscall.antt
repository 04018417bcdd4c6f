-- ===== src/Server/Syscall.antt =====
-- lib/server/GdbServer.cpp, `rspSyscallRequest` and what it calls: a system call of the target
-- becomes an `F` packet, by which the client carries it out on the host.
use embdebug.Base.{
  ℕ, zero, suc, ◌+◌, ◌-◌, ◌*◌, ◌%◌, ◌^◌, bit_or, Bool, true, false, not, List, [], ◌∷◌, ◌++◌, Bytes,
  codes, leb, ltb, ◌==◌, if◌then◌else◌, length, get_or,
}
use embdebug.Base.Outcome.{Outcome, ok, fault, assert, undefined, no_fuel}
use embdebug.Cores.{core_num2pid, kill_core_num}
use embdebug.Hex.{val2hex}
use embdebug.Server.Registers.{rsp_report_exception}
use embdebug.Server.Signals.{TargetSignal}
use embdebug.Server.State.{
  Env, Server, Act, ◌>>=◌, ◌>>◌, ret, stop, lift, get, modify, on_target, put,
}
use embdebug.Target.Access.{SyscallArgLoc, register, register_indirect}

-- The loop of `readArgLoc` that puts bytes together, from byte `i` on; each is shifted as a 64-bit
-- word.
unfoldable pub or_bytes : ℕ → ℕ → Bytes → ℕ → ℕ
or_bytes zero i buf value = value
or_bytes (suc left) i buf value =
    or_bytes left (i + 1) buf (bit_or value (get_or buf i 0 * 2 ^ (i * 8) % 2 ^ 64))

-- `,%lx` for each argument, behind a text.
unfoldable pub args_text : Bytes → List ℕ → Outcome Bytes
args_text text [] = ok text
args_text text (arg ∷ args) = elim (val2hex arg) [
  | ok digits ↦ args_text (text ++ (codes "," ++ digits)) args
  | fault x ↦ fault x
]

-- `W<code>`, or `W<code>;process:<pid>`.
unfoldable pub exited_text : Bool → ℕ → List ℕ → Outcome Bytes
exited_text have_multi_proc current_cpu [] = fault undefined
exited_text have_multi_proc current_cpu (code ∷ args) = elim (val2hex code) [
  | fault x ↦ fault x
  | ok digits ↦ elim (val2hex (core_num2pid current_cpu)) [
    | fault x ↦ fault x
    | ok pid ↦
        ok (codes "W" ++ (if have_multi_proc then digits ++ (codes ";process:" ++ pid) else digits))
  ]
]

module _ {e : Env} where
  -- The loop of `stringLength`; `count` is an `int`.
  unfoldable pub string_length_loop : ℕ → ℕ → ℕ → Act e ℕ
  string_length_loop zero addr count = stop no_fuel
  string_length_loop (suc fuel) addr count =
      let more = string_length_loop fuel addr (count + 1) in
      do
        (read, buf) ← on_target (e.cpu.read ((addr + count) % 2 ^ 64) 1)
        if not (read == 1)
            then ret count
            else if leb (2 ^ 31 - 1) count
            then stop undefined
            else if get_or buf 0 0 == 0
            then ret (count + 1)
            else more

  -- `buf` in `readArgLoc` has eight bytes.
  unfoldable pub read_indirect : ℕ → ℕ → Act e ℕ
  unfolding or_bytes
  read_indirect addr byte_size = if ltb 8 byte_size then stop undefined else (do
    (count, buf) ← on_target (e.cpu.read addr byte_size)
    lift (assert (count == byte_size))
    ret (or_bytes byte_size 0 buf 0))

  unfoldable pub read_arg_loc : SyscallArgLoc → Act e ℕ
  unfolding read_indirect
  read_arg_loc (register reg) = do (size, val) ← on_target (e.cpu.read_register reg); ret val
  read_arg_loc (register_indirect reg offset) = do
    (size, val) ← on_target (e.cpu.read_register reg)
    s ← get
    read_indirect ((val + offset) % 2 ^ 64) (e.cpu.register_size s.target)

  -- The first `n` arguments, in turn.
  unfoldable pub read_args : ℕ → List SyscallArgLoc → Act e (List ℕ)
  unfolding read_arg_loc
  read_args zero locs = ret []
  read_args (suc n) [] = stop undefined
  read_args (suc n) (loc ∷ locs) =
      let more = read_args n locs in do arg ← read_arg_loc loc; args ← more; ret (arg ∷ args)

  -- `F<name>,<argument>,...`
  unfoldable pub put_call : Bytes → ℕ → Act e (Unit {0})
  unfolding read_args args_text put
  put_call name count = do
    s ← get
    args ← read_args count s.syscall_locs.args
    text ← lift (args_text name args)
    put text

  -- The same, where the first argument is a path, and the length of its text goes with it.
  unfoldable pub path_call : Bytes → List ℕ → Act e (Unit {0})
  unfolding args_text string_length_loop put
  path_call name [] = stop undefined
  path_call name (path ∷ args) = do
    count ← string_length_loop e.fuel path 0
    front ← lift (args_text name (path ∷ []))
    digits ← lift (val2hex count)
    text ← lift (args_text (front ++ (codes "/" ++ digits)) args)
    put text

  unfoldable pub put_path_call : Bytes → ℕ → Act e (Unit {0})
  unfolding read_args path_call
  put_path_call name count = do
    s ← get
    args ← read_args count s.syscall_locs.args
    path_call name args

  -- Case 93. There is no reply to an exit, and the core is dead.
  unfoldable pub put_exit : Act e (Unit {0})
  unfolding read_args exited_text put kill_core_num
  put_exit = do
    halted ← on_target e.cpu.halt
    s ← get
    args ← read_args 1 s.syscall_locs.args
    s ← get
    text ← lift (exited_text s.have_multi_proc (e.cpu.current_cpu s.target) args)
    put text
    modify (λ s. record s {
      handling_syscall = false;
      cores = (kill_core_num (e.cpu.current_cpu s.target) s.cores).1;
    })

  -- The switch.
  unfoldable pub put_syscall : ℕ → Act e (Unit {0})
  unfolding put_call put_path_call put_exit rsp_report_exception
  put_syscall id =
      if id == 57
      then put_call (codes "Fclose") 1
      else if id == 62
      then put_call (codes "Flseek") 3
      else if id == 63
      then put_call (codes "Fread") 3
      else if id == 64
      then put_call (codes "Fwrite") 3
      else if id == 80
      then put_call (codes "Ffstat") 2
      else if id == 93
      then put_exit
      else if id == 169
      then put_call (codes "Fgettimeofday") 2
      else if id == 1024
      then put_path_call (codes "Fopen") 3
      else if id == 1026
      then put_path_call (codes "Funlink") 1
      else if id == 1038
      then put_path_call (codes "Fstat") 2
      else rsp_report_exception TargetSignal.trap

  -- What the first system call finds out.
  unfoldable pub find_arg_locs : Server e → Server e
  find_arg_locs s =
      if s.have_syscall_arg_locs
      then s
      else let (support, locs) = e.cpu.syscall_arg_locs s.target in
        record s {
          have_syscall_support = support;
          syscall_locs = locs;
          have_syscall_arg_locs = true;
        }

  unfoldable pub supported_syscall : Act e (Unit {0})
  unfolding read_arg_loc put_syscall
  supported_syscall = do
    s ← get
    lift (assert (leb 3 (length s.syscall_locs.args)))
    id ← read_arg_loc s.syscall_locs.id
    put_syscall id

  unfoldable pub rsp_syscall_request : Act e (Unit {0})
  unfolding find_arg_locs supported_syscall rsp_report_exception
  rsp_syscall_request = do
    s ← get
    lift (assert (not s.handling_syscall))
    modify (λ s. find_arg_locs (record s { handling_syscall = true }))
    s ← get
    if s.have_syscall_support then supported_syscall else rsp_report_exception TargetSignal.trap
