-- ===== src/Target/Enums.antt =====
-- include/embdebug/ITarget.h: the enumerations of the interface to a target.
pub data ResumeType : Type 0 where
  step continue none : ResumeType

pub data ResumeRes : Type 0 where
  none success failure interrupted timeout syscall stepped lockstep : ResumeRes

pub data WaitRes : Type 0 where
  event_occurred error timeout : WaitRes

pub data ResetType : Type 0 where
  cold warm : ResetType

pub data MatchType : Type 0 where
  break break_hw watch_write watch_read watch_access : MatchType
