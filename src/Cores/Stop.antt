-- ===== src/Cores/Stop.antt =====
-- lib/server/GdbServer.cpp, `getNextStopEvent`: which event is chosen.
use embdebug.Base.{
  ℕ, ◌+◌, ◌≡◌, refl, Bool, not, ◌&&◌, List, [], ◌∷◌, Option, none, some, arith, if◌then◌else◌,
}
use embdebug.Target.Enums.{ResumeRes}
use embdebug.Cores.{
  CoreState, CoreManager, get_next_stop_event, stop_event_loop, is_running, has_unreported_stop,
  is_none, is_syscall,
}

-- A core that runs, and has stopped for a reason that was not reported.
abbrev pub has_event : CoreState → Bool
has_event c = is_running c && (has_unreported_stop c && not (is_none c.stop_reason))

abbrev pub has_syscall : CoreState → Bool
has_syscall c = has_event c && is_syscall c.stop_reason

-- The first core that passes a test, counted from `i`, with its stop reason.
abbrev pub first_core : (CoreState → Bool) → ℕ → List CoreState → Option (ℕ × ResumeRes)
first_core test i [] = none
first_core test i (c ∷ cores) =
    if test c then some (i, c.stop_reason) else first_core test (i + 1) cores

abbrev pub or_else : {A : Type 0} → Option A → Option A → Option A
or_else (some a) o = some a
or_else none o = o

stop_event_loop_lem :
    (cores : List CoreState) (i : ℕ) (found : Option (ℕ × ResumeRes))
    → stop_event_loop i found cores
      ≡ or_else (first_core has_syscall i cores) (or_else found (first_core has_event i cores))
unfolding stop_event_loop
stop_event_loop_lem [] i none = refl
stop_event_loop_lem [] i (some e) = refl
stop_event_loop_lem (c ∷ cores) i none = ground (
  arith,
  stop_event_loop_lem cores (i + 1) none,
  stop_event_loop_lem cores (i + 1) (some (i, c.stop_reason)),
)
stop_event_loop_lem (c ∷ cores) i (some e) =
    ground (arith, stop_event_loop_lem cores (i + 1) (some e))

-- The event chosen is that of the first core with a system call to report; where there is none,
-- that of the first core with any event to report; where there is none, no event.
pub get_next_stop_event_lem :
    (m : CoreManager)
    → get_next_stop_event m
      ≡ or_else (first_core has_syscall 0 m.core_states) (first_core has_event 0 m.core_states)
unfolding get_next_stop_event
get_next_stop_event_lem m = stop_event_loop_lem m.core_states 0 none
