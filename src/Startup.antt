-- ===== src/Startup.antt =====
-- Src/client/src/main.cpp and Src/server/src/main.cpp, and Src/common/src/crash_dump.cpp.
pub mod Keyboard
pub mod ClientMain
pub mod ServerMain
pub mod CrashDump
mod Tests
