-- ===== src/Target/Empty.antt =====
-- targets/emptytarget/emptytarget.cpp: the target that does nothing. It has no state. Reads leave
-- the caller's variable and buffer as they were: `value` and `buffer` stand for their contents. The
-- messages on stderr are left out.
use embdebug.Base.{ℕ, false, [], none, Bytes, codes, length}
use embdebug.Target.Access.{Target, SyscallLocs}
use embdebug.Target.Enums.{ResumeRes, WaitRes}

unfoldable pub empty_target : ℕ → (ℕ → Bytes) → SyscallLocs → Target (Unit {0})
empty_target value buffer locs = record {
  terminate = λ t. (ResumeRes.success, t);
  reset = λ type t. (ResumeRes.success, t);
  cycle_count = λ t. 0;
  instr_count = λ t. 0;
  register_count = λ t. 0;
  register_size = λ t. 0;
  syscall_arg_locs = λ t. (false, locs);
  read_register = λ reg t. ((8, value), t);
  write_register = λ reg val t. (8, t);
  read = λ addr size t. ((size, buffer size), t);
  write = λ addr bytes t. (length bytes, t);
  insert_matchpoint = λ addr type t. (false, t);
  remove_matchpoint = λ addr type t. (false, t);
  command = λ cmd t. ((false, []), t);
  time_stamp = λ t. (codes "0", t);
  cpu_count = λ t. 1;
  current_cpu = λ t. 0;
  set_current_cpu = λ index t. t;
  prepare = λ actions t. (false, t);
  resume = λ t. (false, t);
  wait = λ t. ((WaitRes.error, []), t);
  halt = λ t. (false, t);
  supports_target_xml = λ t. false;
  target_xml = λ name t. none;
}
