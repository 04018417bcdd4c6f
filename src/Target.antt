-- ===== src/Target.antt =====
-- include/embdebug/ITarget.h
pub mod Access
pub mod Empty
pub mod Enums
pub mod Print
