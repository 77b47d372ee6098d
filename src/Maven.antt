-- ===== src/Maven.antt =====
-- pkg/util/maven: coordinates, projects, repositories and downloads.
pub mod Types
pub mod Gav
pub mod Project
pub mod Download
pub mod Settings
