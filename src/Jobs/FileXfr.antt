-- ===== src/Jobs/FileXfr.antt =====
-- The file transfer (jobs/filexfr/): the server and the daemon that polls directories for files.
pub mod Defs
pub mod Server
pub mod Frame
pub mod Infiled
mod Tests
