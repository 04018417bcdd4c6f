-- ===== src/Server/Waiting.antt =====
-- lib/server/GdbServer.cpp, `doCoreActions`: how the loop that waits for the target ends.
use embdebug.Base.{ℕ, zero, suc, ◌≡◌, true, false, List, Option, none, some}
use embdebug.Base.Outcome.{Outcome, ok, fault, fatal_error}
use embdebug.Server.Registers.{rsp_report_exception}
use embdebug.Server.Run.{have_break, check_timeout, poll, halt_and_report}
use embdebug.Server.Signals.{TargetSignal}
use embdebug.Server.State.{Env, Server, Act, ◌>>=◌, ◌>>◌, ret, stop}
use embdebug.Target.Enums.{ResumeRes, WaitRes}

module _ {e : Env} where
  -- The state behind a call of `wait`, and behind the look for a break.
  abbrev pub waited : Server e → Server e
  waited s = record s { target = (e.cpu.wait s.target).1 }

  abbrev pub looked : Server e → Server e
  looked s = record s { target = (e.cpu.wait s.target).1; link = (e.rsp.have_break s.link).1 }

  abbrev pub halted : Server e → Server e
  halted s = record s { target = (e.cpu.halt s.target).1 }

  -- `wait` times out, no break has arrived, and `timedOut` is false.
  abbrev pub Quiet : Server e → Server e → Type 0
  Quiet s t =
      ((e.cpu.wait s.target).0.0 ≡ WaitRes.timeout)
      × ((e.rsp.have_break s.link).0 ≡ false)
      × (check_timeout (looked s) ≡ ok (false, t))

  abbrev pub QuietFor : ℕ → Server e → Server e → Type 0
  QuietFor zero s t = s ≡ t
  QuietFor (suc n) s t = (u : Server e) × Quiet s u × QuietFor n u t

  -- The target is asked to halt: it does, and the signal is reported, or it fails to.
  pub data Halts (sig : TargetSignal) (s : Server e)
      : Outcome (Option (List ResumeRes) × Server e) → Type 0 where
    reports :
        (t : Server e)
        → (e.cpu.halt s.target).0 ≡ true
        → rsp_report_exception sig (halted s) ≡ ok (tt, t)
        → Halts sig s (ok (none, t))
    cannot_halt : (e.cpu.halt s.target).0 ≡ false → Halts sig s (fault fatal_error)

  -- The rounds that are not quiet, each with the result of the loop.
  pub data Ending (s : Server e) : Outcome (Option (List ResumeRes) × Server e) → Type 0 where
    event :
        (e.cpu.wait s.target).0.0 ≡ WaitRes.event_occurred
        → Ending s (ok (some (e.cpu.wait s.target).0.1, waited s))
    error : (e.cpu.wait s.target).0.0 ≡ WaitRes.error → Ending s (fault fatal_error)
    break_seen :
        (r : Outcome (Option (List ResumeRes) × Server e))
        → (e.cpu.wait s.target).0.0 ≡ WaitRes.timeout
        → (e.rsp.have_break s.link).0 ≡ true
        → Halts TargetSignal.int (looked s) r
        → Ending s r
    out_of_time :
        (t : Server e) (r : Outcome (Option (List ResumeRes) × Server e))
        → (e.cpu.wait s.target).0.0 ≡ WaitRes.timeout
        → (e.rsp.have_break s.link).0 ≡ false
        → check_timeout (looked s) ≡ ok (true, t)
        → Halts TargetSignal.xcpu t r
        → Ending s r

  -- A round in which `wait` timed out, behind `poll`.
  abbrev after_poll :
      Act e (Option (List ResumeRes)) → Option TargetSignal → Act e (Option (List ResumeRes))
  after_poll again none = again
  after_poll again (some sig) = halt_and_report sig >> ret none

  -- What the loop does behind `wait`, by its result.
  abbrev behind_wait :
      Act e (Option (List ResumeRes)) → List ResumeRes → WaitRes → Act e (Option (List ResumeRes))
  behind_wait again results WaitRes.event_occurred = ret (some results)
  behind_wait again results WaitRes.error = stop fatal_error
  behind_wait again results WaitRes.timeout = poll >>= λ ended. after_poll again ended
