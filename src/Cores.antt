-- ===== src/Cores.antt =====
-- lib/server/GdbServer.h and .cpp, class `CoreManager`, and `getNextStopEvent`. An
-- `unsigned int` wraps at 2 ^ 32.
pub mod Live
pub mod Stop
use embdebug.Base.{
  ℕ, ◌+◌, ◌-◌, ◌%◌, ◌^◌, Bool, true, false, not, List, [], ◌∷◌, Option, none, some, ltb,
  if◌then◌else◌, length, replicate, get_elem?, set,
}
use embdebug.Base.Outcome.{Outcome, ok, fault, assertion, undefined}
use embdebug.Target.Enums.{ResumeType, ResumeRes}

pub record CoreState : Type 0 where
  pub stop_reason : ResumeRes
  pub resume_type : ResumeType
  pub stop_reported : Bool
  pub is_live : Bool

-- The constructor of `CoreState`.
abbrev pub fresh_core : CoreState
fresh_core = record {
  stop_reason = ResumeRes.interrupted;
  resume_type = ResumeType.none;
  stop_reported = true;
  is_live = true;
}

abbrev pub is_running : CoreState → Bool
is_running c = elim c.resume_type [ ResumeType.none ↦ false | _ ↦ true ]

abbrev pub has_unreported_stop : CoreState → Bool
has_unreported_stop c = not c.stop_reported

abbrev pub kill_core : CoreState → CoreState
kill_core c = record c { is_live = false }

abbrev pub report_stop_reason : CoreState → CoreState
report_stop_reason c = record c { stop_reported = true }

abbrev is_none : ResumeRes → Bool
is_none ResumeRes.none = true
is_none _ = false

abbrev pub set_stop_reason : ResumeRes → CoreState → CoreState
set_stop_reason res c = record c { stop_reason = res; stop_reported = is_none res }

abbrev pub set_resume_type : ResumeType → CoreState → CoreState
set_resume_type type c = record c { resume_type = type }

pub record CoreManager : Type 0 where
  pub num_cores : ℕ
  pub live_cores : ℕ
  pub core_states : List CoreState

unfoldable pub init : ℕ → CoreManager
init count = record {
  num_cores = count;
  live_cores = count;
  core_states = replicate count fresh_core;
}

unfoldable pub reset : CoreManager → CoreManager
reset m = record m { live_cores = m.num_cores; core_states = replicate m.num_cores fresh_core }

-- `pid2CoreNum` and `coreNum2Pid`.
abbrev pub pid2core_num : ℕ → ℕ
pid2core_num pid = (pid + 2 ^ 32 - 1) % 2 ^ 32

abbrev pub core_num2pid : ℕ → ℕ
core_num2pid core_num = (core_num + 1) % 2 ^ 32

-- Change core `n`; there is none out of range.
unfoldable pub update : ℕ → (CoreState → CoreState) → List CoreState → List CoreState
update n f states = elim (get_elem? states n) [ none ↦ states | some c ↦ set states n (f c) ]

-- `operator[]`; the vector has an element for each core.
unfoldable pub core_at : ℕ → CoreManager → Outcome CoreState
core_at idx m =
    if ltb idx m.num_cores
    then elim (get_elem? m.core_states idx) [ none ↦ fault undefined | some c ↦ ok c ]
    else fault assertion

-- `isCoreLive`; a read out of bounds is undefined.
unfoldable pub is_core_live : ℕ → CoreManager → Outcome Bool
is_core_live core_num m = elim (get_elem? m.core_states core_num) [
  | none ↦ fault undefined
  | some c ↦ ok c.is_live
]

-- A member function on `mCoreManager[idx]`, which changes this element in place.
unfoldable pub update_core : ℕ → (CoreState → CoreState) → CoreManager → CoreManager
unfolding update
update_core idx f m = record m { core_states = update idx f m.core_states }

unfoldable pub kill_core_num : ℕ → CoreManager → Bool × CoreManager
unfolding update
kill_core_num core_num m =
    if ltb core_num m.num_cores
    then (
      true,
      record m {
        core_states = update core_num kill_core m.core_states;
        live_cores = (m.live_cores + 2 ^ 32 - 1) % 2 ^ 32;
      },
    )
    else (false, m)

-- The first running core with an unreported stop of a kind, from core `i` on.
abbrev is_syscall : ResumeRes → Bool
is_syscall ResumeRes.syscall = true
is_syscall _ = false

-- The loop of `getNextStopEvent`: `found` is the first event that is no syscall.
unfoldable pub stop_event_loop :
    ℕ → Option (ℕ × ResumeRes) → List CoreState → Option (ℕ × ResumeRes)
stop_event_loop i found [] = found
stop_event_loop i found (c ∷ cores) =
    let skip = stop_event_loop (i + 1) found cores in
    let keep =
      stop_event_loop (i + 1) (elim found [ none ↦ some (i, c.stop_reason) | some e ↦ some e ])
        cores in
    if not (is_running c)
    then skip
    else if not (has_unreported_stop c)
    then skip
    else if is_none c.stop_reason
    then skip
    else if is_syscall c.stop_reason
    then some (i, c.stop_reason)
    else keep

unfoldable pub get_next_stop_event : CoreManager → Option (ℕ × ResumeRes)
unfolding stop_event_loop
get_next_stop_event m = stop_event_loop 0 none m.core_states
