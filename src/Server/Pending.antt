-- ===== src/Server/Pending.antt =====
-- lib/server/GdbServer.cpp, `rspSyscallRequest`: the flag `mHandlingSyscall` where the request ends
-- with an exception.
use embdebug.Base.{◌≡◌, refl, sym, ◌∙◌, true, false, Bytes, Option}
use embdebug.Base.Outcome.{Outcome, ok, fault, assertion}
use embdebug.Server.Registers.{rsp_report_exception}
use embdebug.Server.Signals.{TargetSignal, exception_text}
use embdebug.Server.State.{Env, Server, and_then, ◌>>=◌, ◌>>◌, get, lift, modify, put, sent}
use embdebug.Server.Syscall.{rsp_syscall_request, find_arg_locs}

module _ {e : Env} where
  -- A property of the state where a run ends with one.
  abbrev IfOk : {A : Type 0} → (Server e → Type 0) → Outcome (A × Server e) → Type 0
  IfOk P (ok (a, t)) = P t
  IfOk P (fault x) = Unit

  abbrev IsPending : Server e → Type 0
  IsPending s = s.handling_syscall ≡ true

  sent-IsPending :
      (reply : Bytes) (s : Server e) (r : Outcome (Option (Unit {0}) × e.R))
      → IsPending s
      → IfOk IsPending (sent reply s r)
  sent-IsPending reply s (ok (a, link)) h = h
  sent-IsPending reply s (fault x) h = tt

  put_text-IsPending :
      (s : Server e) (text : Outcome Bytes)
      → IsPending s
      → IfOk IsPending (and_then put (lift text s))
  unfolding lift put
  put_text-IsPending s (ok text) h = sent-IsPending text s (e.rsp.put_pkt text s.link) h
  put_text-IsPending s (fault x) h = tt

  report-IsPending :
      (sig : TargetSignal) (s : Server e)
      → IsPending s
      → IfOk IsPending (rsp_report_exception sig s)
  unfolding rsp_report_exception ◌>>=◌ get
  report-IsPending sig s h =
      put_text-IsPending s (exception_text s.have_multi_proc (e.cpu.current_cpu s.target) sig) h

  again : (t : Server e) → IsPending t → rsp_syscall_request t ≡ fault assertion
  unfolding rsp_syscall_request ◌>>=◌ ◌>>◌ get lift
  again t h = rw h refl

  from_end :
      (t : Server e) (r : Outcome (Unit {0} × Server e))
      → IfOk IsPending r
      → r ≡ ok (tt, t)
      → IsPending t
  from_end t (ok (a, u)) h p = cc
  from_end t (fault x) h p = cc

  unsupported_request :
      (s : Server e)
      → s.handling_syscall ≡ false
      → s.have_syscall_arg_locs ≡ true
      → s.have_syscall_support ≡ false
      → rsp_syscall_request s
        ≡ rsp_report_exception TargetSignal.trap (record s { handling_syscall = true })
  unfolding rsp_syscall_request ◌>>=◌ ◌>>◌ get lift modify find_arg_locs
  unsupported_request s idle known none = rw (idle, known, none) refl

  -- No system call is pending, the target is known not to support them, and `rspSyscallRequest`
  -- returns. Then it only reported a trap, but the next `rspSyscallRequest` fails its assertion,
  -- since the flag of a pending call stays set.
  pub rsp_syscall_request_unsupported :
      (s t : Server e)
      → s.handling_syscall ≡ false
      → s.have_syscall_arg_locs ≡ true
      → s.have_syscall_support ≡ false
      → rsp_syscall_request s ≡ ok (tt, t)
      → (rsp_report_exception TargetSignal.trap (record s { handling_syscall = true }) ≡ ok (tt, t))
        × (rsp_syscall_request t ≡ fault assertion)
  rsp_syscall_request_unsupported s t idle known none ends =
      let asked = record s { handling_syscall = true } in
      let report = sym (unsupported_request s idle known none) ∙ ends in
      (
        report,
        again t (
            from_end t (rsp_report_exception TargetSignal.trap asked)
              (report-IsPending TargetSignal.trap asked refl) report),
      )
