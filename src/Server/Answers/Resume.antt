-- ===== src/Server/Answers/Resume.antt =====
-- lib/server/GdbServer.cpp: each reply to a system call, `v` packet and resume request puts one
-- packet.
use embdebug.Base.{ℕ, zero, suc, ◌+◌, refl, true, not, List, [], Option, none, some, arith, ◌==◌}
use embdebug.Base.Int.{ℤ}
use embdebug.Cores.{set_resume_type}
use embdebug.Server.Answers.{
  Step, Puts, Puts-bind, Puts-first, Puts-last, Puts-get, Puts-put, Puts-ret, Puts-lift,
  Puts-option, Puts-modify, Puts-modify_other, Puts-close, Puts-on_target, Puts-if, puts_rules,
}
use embdebug.Server.Answers.Actions.{do_core_actions-Puts, have_break-Puts}
use embdebug.Server.Answers.Data.{rsp_report_exception-Puts}
use embdebug.Server.Answers.Shape.{
  update_core-IsSized, update_core-num_cores, kill_core_num-IsSized, kill_core_num-num_cores,
}
use embdebug.Server.Resume.{
  write_retcode, break_reply, handle_reply, rsp_syscall_reply, core_actions, assign_core,
  run_actions, rsp_vcont, killed, rsp_vkill, rsp_vpkt, rsp_continue, live_type, action_type,
  new_reply, kill_pid,
}
use embdebug.Server.Scan.{c_string}
use embdebug.Server.State.{Env, Server, Act, reset_on_kill, exit_on_kill, KillBehaviour}
use embdebug.SyscallReply.{SyscallReply}
use embdebug.SyscallReply
use embdebug.Target.Enums.{ResumeType}
use embdebug.VCont.{VContActions}

module _ {e : Env} where
  write_retcode-Puts : (code : ℤ) → Puts 0 (write_retcode {e = e} code)
  unfolding write_retcode
  write_retcode-Puts code = search puts_rules

  break_reply-Puts : Puts 1 (break_reply {e = e})
  unfolding break_reply
  break_reply-Puts = Puts-bind (Puts-on_target _) (λ halted.
      Puts-last (rsp_report_exception-Puts _) (Puts-bind have_break-Puts (λ broken. Puts-ret tt)))

  handle_reply-Puts : (p : SyscallReply) → Puts 1 (handle_reply {e = e} p)
  unfolding handle_reply
  handle_reply-Puts p =
      search (puts_rules, write_retcode-Puts, break_reply-Puts, do_core_actions-Puts)

  pub rsp_syscall_reply-Puts : Puts 1 (rsp_syscall_reply {e = e})
  unfolding rsp_syscall_reply
  rsp_syscall_reply-Puts = Puts-bind Puts-get (λ s. Puts-first (Puts-lift _) (
      Puts-first (Puts-modify_other _ (λ s. refl) (λ s. refl) (λ s. refl))
        (handle_reply-Puts (SyscallReply.parse (c_string s.pkt) new_reply))))

  assign_core-Puts :
      (i : ℕ) (types : List ResumeType) (more : List ResumeType → Act e (Option (List ResumeType)))
      (o : Option ResumeType)
      → ((types : List ResumeType) → Puts 0 (more types))
      → Puts 0 (assign_core i types more o)
  unfolding assign_core
  assign_core-Puts i types more none p = Puts-ret none
  assign_core-Puts i types more (some asked) p = Puts-bind Puts-get (λ s.
      Puts-bind (Puts-lift _) (λ core.
        Puts-first
          (Puts-modify _ (λ s. record {
            count = omega arith;
            num_cores = update_core-num_cores i (set_resume_type (live_type core asked)) s.cores;
            num_regs = refl;
            sized = update_core-IsSized i (set_resume_type (live_type core asked)) s.cores;
          }))
          (p _)))

  core_actions-Puts :
      (actions : VContActions) (left i : ℕ) (types : List ResumeType)
      → Puts 0 (core_actions {e = e} actions left i types)
  unfolding core_actions
  core_actions-Puts actions zero i types = search puts_rules
  core_actions-Puts actions (suc left) i types = Puts-bind (Puts-lift _) (λ action.
      assign_core-Puts i types (core_actions actions left (i + 1)) (action_type action)
        (core_actions-Puts actions left (i + 1)))

  run_actions-Puts : (types : List ResumeType) → Puts 1 (run_actions {e = e} types)
  unfolding run_actions
  run_actions-Puts types = search (puts_rules, do_core_actions-Puts)

  rsp_vcont-Puts : Puts 1 (rsp_vcont {e = e})
  unfolding rsp_vcont
  rsp_vcont-Puts = Puts-bind Puts-get (λ s. Puts-bind (Puts-lift _) (λ actions.
      Puts-if (not actions.valid) (Puts-put _) (
        Puts-bind (core_actions-Puts actions s.cores.num_cores 0 [])
          (λ types. Puts-option types (Puts-put _) run_actions-Puts))))

  leave_Step :
      (s : Server e) (k : KillBehaviour)
      → Step 0 s (elim k as (λ k. Server e) [
        | reset_on_kill ↦ s
        | exit_on_kill ↦ record s { exit_server = true }
      ])
  leave_Step s reset_on_kill = record {
    count = omega arith;
    num_cores = refl;
    num_regs = refl;
    sized = λ h. h;
  }
  leave_Step s exit_on_kill = record {
    count = omega arith;
    num_cores = refl;
    num_regs = refl;
    sized = λ h. h;
  }

  killed-Puts : Puts 1 (killed {e = e})
  unfolding killed
  killed-Puts = Puts-last (Puts-put _) (
      Puts-bind Puts-get (λ s.
        Puts-if (not (s.cores.live_cores == 0)) (Puts-ret tt)
          (Puts-first Puts-close (Puts-modify _ (λ s. leave_Step s s.kill_behaviour)))))

  kill_pid-Puts : (pid : ℕ) → Puts 0 (kill_pid {e = e} pid)
  unfolding kill_pid
  kill_pid-Puts pid = record {
    leads = λ s. record {
      count = omega arith;
      num_cores = kill_core_num-num_cores _ s.cores;
      num_regs = refl;
      sized = kill_core_num-IsSized _ s.cores;
    };
  }

  rsp_vkill-Puts : Puts 1 (rsp_vkill {e = e})
  unfolding rsp_vkill
  rsp_vkill-Puts = search (puts_rules, kill_pid-Puts, killed-Puts) depth 10

  pub rsp_vpkt-Puts : Puts 1 (rsp_vpkt {e = e})
  unfolding rsp_vpkt
  rsp_vpkt-Puts = search (puts_rules, rsp_vcont-Puts, rsp_vkill-Puts)

  pub rsp_continue-Puts : Puts 1 (rsp_continue {e = e})
  unfolding rsp_continue
  rsp_continue-Puts =
      Puts-first (Puts-modify_other _ (λ s. refl) (λ s. refl) (λ s. refl)) rsp_vpkt-Puts
