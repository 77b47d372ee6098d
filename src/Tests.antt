-- ===== src/Tests.antt =====
-- Runs of the theorems at concrete inputs.
mod Samples
mod Texts
mod Builds
mod Steps
mod Phases
mod Loop
mod Writes
mod Startup
mod Files
mod Waits
mod Ways
