-- ===== src/Server/Timed.antt =====
-- lib/server/GdbServer.cpp and Timeout.cpp: a limit on the cycles, in the loop that waits for the
-- target.
use embdebug.Base.{
  ℕ, ◌+◌, ◌-◌, ◌%◌, ◌^◌, ◌<◌, ◌≤◌, ◌≡◌, refl, ◌∙◌, ap, Bool, false, none, some, arith, ltb,
  if◌then◌else◌,
}
use embdebug.Base.Outcome.{Outcome, ok}
use embdebug.Server.Run.{have_break, check_timeout, poll}
use embdebug.Server.Signals.{TargetSignal}
use embdebug.Server.State.{Env, Server, ◌>>=◌, ret, on_link}
use embdebug.Timeout.{Timeout, set_cycle_timeout, time_stamp, is_real_timeout, timed_out}

-- Without overflow the comparison is the one of the cycles that have passed.
passed_lem :
    (start limit cycles : ℕ)
    → start + limit < 2 ^ 64
    → start ≤ cycles
    → ltb ((start + limit) % 2 ^ 64) cycles ≡ ltb limit (cycles - start)
passed_lem start limit cycles small later =
    let same : (start + limit) % 2 ^ 64 ≡ start + limit = omega arith in rw same (ground arith)

module _ {e : Env} where
  -- What `timedOut` says for a timeout.
  abbrev answer : Server e → Timeout e.Duration e.Instant → Outcome (Bool × Server e)
  answer s t =
      let cycles = e.cpu.cycle_count s.target in
      let (now, time) = e.clock.now s.time in
      let out = λ (instant : e.Instant). timed_out e.clock.plus e.clock.after instant cycles t in
      if is_real_timeout t then ok (out now, record s { time = time }) else ok (out t.real_stamp, s)

  check_timeout_lem :
      (s : Server e) (t : Timeout e.Duration e.Instant) (now : e.Instant) (start limit : ℕ)
      → s.timeout ≡ time_stamp now start (set_cycle_timeout e.clock.zero_duration limit t)
      → start + limit < 2 ^ 64
      → start ≤ e.cpu.cycle_count s.target
      → check_timeout s ≡ ok (ltb limit (e.cpu.cycle_count s.target - start), s)
  unfolding check_timeout
  check_timeout_lem s t now start limit stamped small later =
      ap (answer s) stamped
      ∙ ap (λ b. ok (b, s)) (passed_lem start limit (e.cpu.cycle_count s.target) small later)

  -- The limit was set by `cycleTimeout` and the stamp at a count of cycles, the sum of which does
  -- not overflow 64 bits; the count is not below the stamp now, and no break has arrived. Then a
  -- round of the loop of `doCoreActions` that gets no event ends the loop, with the signal XCPU,
  -- just if more cycles have passed since the stamp than the limit; it changes nothing but what
  -- looking for a break does to the connection. A limit of zero is no exception.
  pub poll-cycle_timeout :
      (s : Server e) (t : Timeout e.Duration e.Instant) (now : e.Instant) (start limit : ℕ)
      (link : e.R)
      → s.timeout ≡ time_stamp now start (set_cycle_timeout e.clock.zero_duration limit t)
      → e.rsp.have_break s.link ≡ (false, link)
      → start + limit < 2 ^ 64
      → start ≤ e.cpu.cycle_count s.target
      → poll s
        ≡ ok (
          (if ltb limit (e.cpu.cycle_count s.target - start) then some TargetSignal.xcpu else none),
          record s { link = link },
        )
  unfolding poll have_break ◌>>=◌ ret on_link
  poll-cycle_timeout s t now start limit link stamped quiet small later =
      let s₁ = record s { link = link } in
      rw (quiet, check_timeout_lem s₁ t now start limit stamped small later) refl
