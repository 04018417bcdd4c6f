-- ===== src/Tests.antt =====
-- The theorems at concrete inputs, file by file.
mod Wire
mod Text
mod Server
mod Classes
mod Serving
mod Running
mod Starting
