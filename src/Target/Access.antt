-- ===== src/Target/Access.antt =====
-- include/embdebug/ITarget.h: the operations of a target, on its state `T`. An operation that the
-- source declares without a state change, or that only asks for a property, is a function of the
-- state. `read` gives the count that it returns and the contents of the buffer afterwards; texts
-- that a target writes to a stream are results.
use embdebug.Base.{ℕ, Bool, List, Option, Bytes}
use embdebug.Target.Enums.{ResumeType, ResumeRes, ResetType, MatchType, WaitRes}

-- Where an argument of a system call is: in a register, or at an offset from one, a 64-bit word.
pub data SyscallArgLoc : Type 0 where
  register : ℕ → SyscallArgLoc
  register_indirect : ℕ → ℕ → SyscallArgLoc

-- The three results of `getSyscallArgLocs`.
pub record SyscallLocs : Type 0 where
  pub id : SyscallArgLoc
  pub args : List SyscallArgLoc
  pub return_value : SyscallArgLoc

pub record Target (T : Type 0) : Type 0 where
  pub terminate : T → ResumeRes × T
  pub reset : ResetType → T → ResumeRes × T
  pub cycle_count : T → ℕ
  pub instr_count : T → ℕ
  pub register_count : T → ℕ
  pub register_size : T → ℕ
  pub syscall_arg_locs : T → Bool × SyscallLocs
  pub read_register : ℕ → T → (ℕ × ℕ) × T
  pub write_register : ℕ → ℕ → T → ℕ × T
  pub read : ℕ → ℕ → T → (ℕ × Bytes) × T
  pub write : ℕ → Bytes → T → ℕ × T
  pub insert_matchpoint : ℕ → MatchType → T → Bool × T
  pub remove_matchpoint : ℕ → MatchType → T → Bool × T
  pub command : Bytes → T → (Bool × Bytes) × T
  pub time_stamp : T → Bytes × T
  pub cpu_count : T → ℕ
  pub current_cpu : T → ℕ
  pub set_current_cpu : ℕ → T → T
  pub prepare : List ResumeType → T → Bool × T
  pub resume : T → Bool × T
  pub wait : T → (WaitRes × List ResumeRes) × T
  pub halt : T → Bool × T
  pub supports_target_xml : T → Bool
  pub target_xml : Bytes → T → Option Bytes
