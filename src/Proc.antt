-- ===== src/Proc.antt =====
-- src/RevProc.cc: the parts of the pipeline that choose a thread and keep the register hazards.
pub mod Scoreboard
pub mod Harts
mod Tests
