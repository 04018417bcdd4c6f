-- ===== src/Server/Answers/Actions.antt =====
-- lib/server/GdbServer.cpp: `doCoreActions` puts one packet, whatever ends the wait, and so do the
-- requests that lead to it.
use embdebug.Base.{
  ℕ, zero, suc, ◌+◌, ◌≡◌, refl, ◌∙◌, Bool, Bool-cases, inl, inr, true, false, not, if◌then◌else◌,
  List, Option, none, some, arith, length,
}
use embdebug.Base.Outcome.{Outcome, ok, fault, fatal_error, no_fuel}
use embdebug.Cores.{CoreState, get_next_stop_event, report_stop_reason}
use embdebug.Server.Answers.{
  Step-refl, Leads, Puts, Puts-bind, Puts-first, Puts-get, Puts-ret, Puts-lift, Puts-modify,
  Puts-on_target, Puts-if, puts_rules,
}
use embdebug.Server.Answers.Branches.{
  PutsBy, Puts-rest, PutsBy-ret, PutsBy-stop, PutsBy-then_ret, PutsBy-bind, PutsBy-first,
  PutsBy-option, PutsBy-wait,
}
use embdebug.Server.Answers.Run.{stop_event-Puts, halt_and_report-Puts}
use embdebug.Server.Answers.Shape.{
  update_core-IsSized, update_core-num_cores, KeepsLength, store_results-KeepsLength,
}
use embdebug.Server.Run.{
  process_stop_events, start_timeout, check_timeout, poll, wait_loop, after_wait, resume_and_wait,
  do_core_actions, have_break, store_results, record_results, with_states,
}
use embdebug.Server.State.{Env, Server, Act, lift, ret}
use embdebug.Timeout.{is_real_timeout}
use embdebug.Target.Enums.{ResumeRes}

-- A packet is put for an event, and where the loop ends by itself.
abbrev if_event : Bool → ℕ
if_event true = 1
if_event false = 0

abbrev unless_event : Bool → ℕ
unless_event true = 0
unless_event false = 1

abbrev if_ended : Option (List ResumeRes) → ℕ
if_ended none = 1
if_ended (some results) = 0

abbrev unless_ended : Option (List ResumeRes) → ℕ
unless_ended none = 0
unless_ended (some results) = 1

either_event : (done : Bool) → if_event done + unless_event done ≡ 1
either_event true = refl
either_event false = refl

either_ended : (o : Option (List ResumeRes)) → if_ended o + unless_ended o ≡ 1
either_ended none = refl
either_ended (some results) = refl

module _ {e : Env} where
  process_stop_events-PutsBy : PutsBy if_event (process_stop_events {e = e})
  unfolding process_stop_events
  process_stop_events-PutsBy = PutsBy-bind Puts-get (λ s.
      PutsBy-option (get_next_stop_event s.cores) (PutsBy-ret if_event false refl)
        (λ (cpu_num, res).
          PutsBy-first
            (Puts-modify _ (λ s. record {
              count = omega arith;
              num_cores = update_core-num_cores cpu_num report_stop_reason s.cores;
              num_regs = refl;
              sized = update_core-IsSized cpu_num report_stop_reason s.cores;
            }))
            (PutsBy-then_ret if_event 1 true refl (stop_event-Puts res))))

  check_timeout-Puts : Puts 0 (check_timeout {e = e})
  unfolding check_timeout
  check_timeout-Puts = record {
    leads = λ s. elim (Bool-cases (is_real_timeout s.timeout)) [
      | inl h ↦
          rw h (record { count = omega arith; num_cores = refl; num_regs = refl; sized = λ h. h })
      | inr h ↦
          rw h (record { count = omega arith; num_cores = refl; num_regs = refl; sized = λ h. h })
    ];
  }

  start_timeout-Puts : Puts 0 (start_timeout {e = e})
  unfolding start_timeout
  start_timeout-Puts = record {
    leads = λ s. record { count = omega arith; num_cores = refl; num_regs = refl; sized = λ h. h };
  }

  pub have_break-Puts : Puts 0 (have_break {e = e})
  unfolding have_break
  have_break-Puts = search puts_rules

  poll-Puts : Puts 0 (poll {e = e})
  unfolding poll
  poll-Puts = search (puts_rules, check_timeout-Puts)

  wait_loop-PutsBy : (fuel : ℕ) → PutsBy if_ended (wait_loop {e = e} fuel)
  unfolding wait_loop
  wait_loop-PutsBy zero = PutsBy-stop if_ended no_fuel
  wait_loop-PutsBy (suc fuel) = PutsBy-bind (Puts-on_target e.cpu.wait) (λ (res, results).
      PutsBy-wait res (PutsBy-ret if_ended (some results) refl) (PutsBy-stop if_ended fatal_error) (
        PutsBy-bind poll-Puts (λ ended.
          PutsBy-option ended (wait_loop-PutsBy fuel)
            (λ sig. PutsBy-then_ret if_ended 1 none refl (halt_and_report-Puts sig)))))

  with_states-Leads :
      (s : Server e) (o : Outcome (List CoreState))
      → KeepsLength (length s.cores.core_states) o
      → Leads 0 s (with_states s o)
  with_states-Leads s (ok states) h = record {
    count = omega arith;
    num_cores = refl;
    num_regs = refl;
    sized = λ sized. h ∙ sized;
  }
  with_states-Leads s (fault x) h = tt

  record_results-Puts : (results : List ResumeRes) → Puts 0 (record_results {e = e} results)
  unfolding record_results
  record_results-Puts results = record {
    leads = λ s.
        with_states-Leads s (store_results s.cores.core_states results)
          (store_results-KeepsLength s.cores.core_states results);
  }

  expect_event-Puts :
      (done : Bool)
      → Puts (unless_event done) (lift {e = e} (if not done then fault fatal_error else ok tt))
  unfolding lift
  expect_event-Puts true = record { leads = Step-refl }
  expect_event-Puts false = record { leads = λ s. tt }

  after_wait-Puts : (results : List ResumeRes) → Puts 1 (after_wait {e = e} results)
  unfolding after_wait
  after_wait-Puts results = Puts-bind Puts-get (λ s. Puts-first (Puts-lift _) (
      Puts-first (record_results-Puts results) (
        Puts-rest if_event unless_event 1 process_stop_events-PutsBy either_event
          expect_event-Puts)))

  after_loop-Puts :
      (o : Option (List ResumeRes))
      → Puts
          (unless_ended o)
          (elim o as (λ o. Act e (Unit {0})) [ none ↦ ret tt | some results ↦ after_wait results ])
  after_loop-Puts none = Puts-ret tt
  after_loop-Puts (some results) = after_wait-Puts results

  resume_and_wait-Puts : Puts 1 (resume_and_wait {e = e})
  unfolding resume_and_wait
  resume_and_wait-Puts = Puts-first start_timeout-Puts (
      Puts-bind (Puts-on_target _) (λ resumed.
        Puts-first (Puts-lift _) (
          Puts-rest if_ended unless_ended 1 (wait_loop-PutsBy e.fuel) either_ended
            after_loop-Puts)))

  unless_done-Puts :
      (done : Bool) → Puts (unless_event done) (if done then ret {e = e} tt else resume_and_wait)
  unless_done-Puts true = Puts-ret tt
  unless_done-Puts false = resume_and_wait-Puts

  pub do_core_actions-Puts : Puts 1 (do_core_actions {e = e})
  unfolding do_core_actions
  do_core_actions-Puts = Puts-bind have_break-Puts (λ broken.
      Puts-if broken (halt_and_report-Puts _) (
        Puts-rest if_event unless_event 1 process_stop_events-PutsBy either_event unless_done-Puts))
