-- ===== src/Server/Answers/Run.antt =====
-- lib/server/GdbServer.cpp: what the requests that make the cores run put.
use embdebug.Base.{
  codes, ◌==◌, ℕ, zero, suc, refl, Bool-cases, inl, inr, true, List, [], ◌∷◌, Bytes, arith,
}
use embdebug.Base.Outcome.{fatal_error}
use embdebug.Server.Answers.{
  Puts-if, Step, Puts, Puts-bind, Puts-first, Puts-last, Puts-get, Puts-put, Puts-stop, Puts-lift,
  Puts-modify, Puts-on_target, puts_rules,
}
use embdebug.Server.Answers.Data.{rsp_report_exception-Puts}
use embdebug.Server.Answers.Shape.{kill_core_num-IsSized, kill_core_num-num_cores}
use embdebug.Server.Run.{stop_event, halt_and_report}
use embdebug.Server.Signals.{TargetSignal}
use embdebug.Server.State.{Env, Server}
use embdebug.Server.Syscall.{
  string_length_loop, read_indirect, read_arg_loc, read_args, put_call, path_call, put_path_call,
  put_exit, put_syscall, find_arg_locs, supported_syscall, rsp_syscall_request,
}
use embdebug.Target.Access.{SyscallArgLoc, register, register_indirect}
use embdebug.Target.Enums.{ResumeRes}

module _ {e : Env} where
  string_length_loop-Puts :
      (fuel addr count : ℕ) → Puts 0 (string_length_loop {e = e} fuel addr count)
  unfolding string_length_loop
  string_length_loop-Puts zero addr count = search puts_rules
  string_length_loop-Puts (suc fuel) addr count = search (puts_rules, string_length_loop-Puts fuel)

  read_indirect-Puts : (addr size : ℕ) → Puts 0 (read_indirect {e = e} addr size)
  unfolding read_indirect
  read_indirect-Puts addr size = search puts_rules

  read_arg_loc-Puts : (loc : SyscallArgLoc) → Puts 0 (read_arg_loc {e = e} loc)
  unfolding read_arg_loc
  read_arg_loc-Puts (register reg) = search puts_rules
  read_arg_loc-Puts (register_indirect reg offset) = search (puts_rules, read_indirect-Puts)

  read_args-Puts : (n : ℕ) (locs : List SyscallArgLoc) → Puts 0 (read_args {e = e} n locs)
  unfolding read_args
  read_args-Puts zero locs = search puts_rules
  read_args-Puts (suc n) [] = search puts_rules
  read_args-Puts (suc n) (loc ∷ locs) = search (puts_rules, read_arg_loc-Puts, read_args-Puts n)

  put_call-Puts : (name : Bytes) (count : ℕ) → Puts 1 (put_call {e = e} name count)
  unfolding put_call
  put_call-Puts name count = search (puts_rules, read_args-Puts)

  path_call-Puts : (name : Bytes) (args : List ℕ) → Puts 1 (path_call {e = e} name args)
  unfolding path_call
  path_call-Puts name [] = search puts_rules
  path_call-Puts name (path ∷ args) = search (puts_rules, string_length_loop-Puts)

  put_path_call-Puts : (name : Bytes) (count : ℕ) → Puts 1 (put_path_call {e = e} name count)
  unfolding put_path_call
  put_path_call-Puts name count =
      Puts-bind Puts-get (λ s. Puts-bind (read_args-Puts _ _) (λ args. path_call-Puts name args))

  put_exit-Puts : Puts 1 (put_exit {e = e})
  unfolding put_exit
  put_exit-Puts = Puts-bind (Puts-on_target _) (λ halted. Puts-bind Puts-get (λ s.
      Puts-bind (read_args-Puts 1 s.syscall_locs.args) (λ args. Puts-bind Puts-get (λ s.
        Puts-bind (Puts-lift _) (λ text. Puts-last (Puts-put text) (
          Puts-modify _ (λ s. record {
            count = omega arith;
            num_cores = kill_core_num-num_cores _ s.cores;
            num_regs = refl;
            sized = kill_core_num-IsSized _ s.cores;
          })))))))

  put_syscall-Puts : (id : ℕ) → Puts 1 (put_syscall {e = e} id)
  unfolding put_syscall
  put_syscall-Puts id = Puts-if (id == 57) (put_call-Puts (codes "Fclose") 1) (
      Puts-if (id == 62) (put_call-Puts (codes "Flseek") 3) (
        Puts-if (id == 63) (put_call-Puts (codes "Fread") 3) (
          Puts-if (id == 64) (put_call-Puts (codes "Fwrite") 3) (
            Puts-if (id == 80) (put_call-Puts (codes "Ffstat") 2) (
              Puts-if (id == 93) put_exit-Puts (
                Puts-if (id == 169) (put_call-Puts (codes "Fgettimeofday") 2) (
                  Puts-if (id == 1024) (put_path_call-Puts (codes "Fopen") 3) (
                    Puts-if (id == 1026) (put_path_call-Puts (codes "Funlink") 1) (
                      Puts-if (id == 1038) (put_path_call-Puts (codes "Fstat") 2)
                        (rsp_report_exception-Puts TargetSignal.trap))))))))))

  supported_syscall-Puts : Puts 1 (supported_syscall {e = e})
  unfolding supported_syscall
  supported_syscall-Puts = search (puts_rules, read_arg_loc-Puts, put_syscall-Puts)

  find_arg_locs-Step :
      (s : Server e) → Step 0 s (find_arg_locs (record s { handling_syscall = true }))
  unfolding find_arg_locs
  find_arg_locs-Step s = elim (Bool-cases s.have_syscall_arg_locs) [
    | inl h ↦
        rw h (record { count = omega arith; num_cores = refl; num_regs = refl; sized = λ h. h })
    | inr h ↦
        rw h (record { count = omega arith; num_cores = refl; num_regs = refl; sized = λ h. h })
  ]

  rsp_syscall_request-Puts : Puts 1 (rsp_syscall_request {e = e})
  unfolding rsp_syscall_request
  rsp_syscall_request-Puts = Puts-bind Puts-get (λ s. Puts-first (Puts-lift _) (
      Puts-first (Puts-modify _ find_arg_locs-Step)
        (search (puts_rules, supported_syscall-Puts, rsp_report_exception-Puts))))

  pub stop_event-Puts : (res : ResumeRes) → Puts 1 (stop_event {e = e} res)
  unfolding stop_event
  stop_event-Puts ResumeRes.syscall = rsp_syscall_request-Puts
  stop_event-Puts ResumeRes.interrupted = rsp_report_exception-Puts _
  stop_event-Puts ResumeRes.stepped = rsp_report_exception-Puts _
  stop_event-Puts ResumeRes.lockstep = rsp_report_exception-Puts _
  stop_event-Puts ResumeRes.none = Puts-stop 1 fatal_error
  stop_event-Puts ResumeRes.success = Puts-stop 1 fatal_error
  stop_event-Puts ResumeRes.failure = Puts-stop 1 fatal_error
  stop_event-Puts ResumeRes.timeout = Puts-stop 1 fatal_error

  pub halt_and_report-Puts : (sig : TargetSignal) → Puts 1 (halt_and_report {e = e} sig)
  unfolding halt_and_report
  halt_and_report-Puts sig = search (puts_rules, rsp_report_exception-Puts)
