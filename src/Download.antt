-- ===== src/Download.antt =====
-- src/clientDownload.ts: the mirrors of an artifact, the attempts over them and what a download
-- reports.
pub mod Mirrors
pub mod Work
pub mod Perform
mod Tests
