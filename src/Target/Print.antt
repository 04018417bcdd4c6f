-- ===== src/Target/Print.antt =====
-- lib/targetsupport/ITarget.cpp: the output operators of the enumerations, as the text they append.
-- A value outside of an enumeration, which the code calls unknown too, does not exist here.
use embdebug.Base.{Bytes, codes}
use embdebug.Target.Enums.{ResumeType, ResumeRes, MatchType}

print_resume_type : ResumeType → Bytes
print_resume_type ResumeType.step = codes "step"
print_resume_type ResumeType.continue = codes "continue"
print_resume_type ResumeType.none = codes "none"

print_resume_res : ResumeRes → Bytes
print_resume_res ResumeRes.none = codes "none"
print_resume_res ResumeRes.success = codes "success"
print_resume_res ResumeRes.failure = codes "failure"
print_resume_res ResumeRes.interrupted = codes "interrupted"
print_resume_res ResumeRes.timeout = codes "timeout"
print_resume_res ResumeRes.syscall = codes "syscall"
print_resume_res ResumeRes.stepped = codes "stepped"
print_resume_res ResumeRes.lockstep = codes "unknown"

print_match_type : MatchType → Bytes
print_match_type MatchType.break = codes "breakpoint"
print_match_type MatchType.break_hw = codes "hardware breakpoint"
print_match_type MatchType.watch_write = codes "write watchpoint"
print_match_type MatchType.watch_read = codes "read watchpoint"
print_match_type MatchType.watch_access = codes "access watchpoint"
