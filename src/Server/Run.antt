-- ===== src/Server/Run.antt =====
-- lib/server/GdbServer.cpp: running the cores, `doCoreActions` and the requests that lead to it,
-- with the stop events that are reported afterwards.
use embdebug.Base.{
  ℕ, zero, suc, Bool, true, false, not, ◌&&◌, List, [], ◌∷◌, Option, none, some, ◌==◌,
  if◌then◌else◌, length,
}
use embdebug.Base.Outcome.{Outcome, ok, fault, fatal_error, undefined, no_fuel}
use embdebug.Cores.{
  CoreState, is_running, has_unreported_stop, report_stop_reason, set_stop_reason, update_core,
  get_next_stop_event,
}
use embdebug.Server.Registers.{rsp_report_exception}
use embdebug.Server.Signals.{TargetSignal}
use embdebug.Server.State.{
  Server, Env, Act, ◌>>=◌, ◌>>◌, ret, stop, lift, get, modify, on_target, on_link,
}
use embdebug.Server.Syscall.{rsp_syscall_request}
use embdebug.Target.Enums.{ResumeRes, WaitRes}
use embdebug.Timeout.{is_real_timeout, time_stamp, timed_out}

-- The loop of `doCoreActions` over the results of `wait`.
unfoldable pub store_results : List CoreState → List ResumeRes → Outcome (List CoreState)
store_results [] results = ok []
store_results (c ∷ cores) [] = fault undefined
store_results (c ∷ cores) (res ∷ results) =
    let stored = if is_running c then set_stop_reason res c else c in
    if is_running c && has_unreported_stop c
    then fault fatal_error
    else elim (store_results cores results) [ ok rest ↦ ok (stored ∷ rest) | fault x ↦ fault x ]

module _ {e : Env} where
  unfoldable pub have_break : Act e Bool
  have_break = on_link e.rsp.have_break

  -- The switch of `processStopEvents`.
  unfoldable pub stop_event : ResumeRes → Act e (Unit {0})
  unfolding rsp_syscall_request rsp_report_exception
  stop_event ResumeRes.syscall = rsp_syscall_request
  stop_event ResumeRes.interrupted = rsp_report_exception TargetSignal.trap
  stop_event ResumeRes.stepped = rsp_report_exception TargetSignal.trap
  stop_event ResumeRes.lockstep = rsp_report_exception TargetSignal.usr1
  stop_event _ = stop fatal_error

  unfoldable pub process_stop_events : Act e Bool
  unfolding get_next_stop_event update_core stop_event
  process_stop_events = do
    s ← get
    elim (get_next_stop_event s.cores) [
      | none ↦ ret false
      | some (cpu_num, res) ↦ (do
        modify (λ s. record s {
          cores = update_core cpu_num report_stop_reason s.cores;
          target = e.cpu.set_current_cpu cpu_num s.target;
        })
        stop_event res
        ret true)
    ]

  -- Force the target to stop, and report why.
  unfoldable pub halt_and_report : TargetSignal → Act e (Unit {0})
  unfolding rsp_report_exception
  halt_and_report sig = do
    halted ← on_target e.cpu.halt
    if not halted then stop fatal_error else rsp_report_exception sig

  -- `mTimeout.timeStamp(cpu)`.
  unfoldable pub start_timeout : Act e (Unit {0})
  start_timeout s =
      let (now, time) = e.clock.now s.time in
      ok (
        tt,
        record s { time = time; timeout = time_stamp now (e.cpu.cycle_count s.target) s.timeout },
      )

  -- `mTimeout.timedOut(cpu)`, which reads the clock only for a timeout by the clock.
  unfoldable pub check_timeout : Act e Bool
  check_timeout s =
      let cycles = e.cpu.cycle_count s.target in
      let (now, time) = e.clock.now s.time in
      let out =
        λ (instant : e.Instant). timed_out e.clock.plus e.clock.after instant cycles s.timeout in
      if is_real_timeout s.timeout
      then ok (out now, record s { time = time })
      else ok (out s.timeout.real_stamp, s)

  -- A round of the loop in which `wait` timed out: the signal with which it ends, if it ends.
  unfoldable pub poll : Act e (Option TargetSignal)
  unfolding have_break check_timeout
  poll = do
    broken ← have_break
    if broken
        then ret (some TargetSignal.int)
        else (do out ← check_timeout; ret (if out then some TargetSignal.xcpu else none))

  -- The loop: the results of `wait`, or none if it was ended from here.
  unfoldable pub wait_loop : ℕ → Act e (Option (List ResumeRes))
  unfolding poll halt_and_report
  wait_loop zero = stop no_fuel
  wait_loop (suc fuel) =
      let again = wait_loop fuel in
      do
        (res, results) ← on_target e.cpu.wait
        elim res [
          | WaitRes.event_occurred ↦ ret (some results)
          | WaitRes.error ↦ stop fatal_error
          | WaitRes.timeout ↦ (do
            ended ← poll
            elim ended [ some sig ↦ halt_and_report sig >> ret none | none ↦ again ])
        ]

  -- The loop over the results of `wait`.
  abbrev pub with_states : Server e → Outcome (List CoreState) → Outcome (Unit {0} × Server e)
  with_states s (ok states) = ok (tt, record s { cores = record s.cores { core_states = states } })
  with_states s (fault x) = fault x

  unfoldable pub record_results : List ResumeRes → Act e (Unit {0})
  unfolding store_results
  record_results results s = with_states s (store_results s.cores.core_states results)

  -- Behind the loop that waits.
  unfoldable pub after_wait : List ResumeRes → Act e (Unit {0})
  unfolding record_results process_stop_events
  after_wait results = do
    s ← get
    lift (if not (length results == s.cores.num_cores) then fault fatal_error else ok tt)
    record_results results
    done ← process_stop_events
    lift (if not done then fault fatal_error else ok tt)

  unfoldable pub resume_and_wait : Act e (Unit {0})
  unfolding start_timeout wait_loop after_wait
  resume_and_wait = do
    start_timeout
    resumed ← on_target e.cpu.resume
    lift (if not resumed then fault fatal_error else ok tt)
    results ← wait_loop e.fuel
    elim results [ none ↦ ret tt | some results ↦ after_wait results ]

  unfoldable pub do_core_actions : Act e (Unit {0})
  unfolding have_break halt_and_report process_stop_events resume_and_wait
  do_core_actions = do
    broken ← have_break
    if broken
        then halt_and_report TargetSignal.int
        else (do done ← process_stop_events; if done then ret tt else resume_and_wait)
