-- ===== src/Transfer.antt =====
-- bridge/transfer: the mirroring engine.
pub mod Types
pub mod Exec
pub mod MirrorT2b
pub mod MirrorB2t
pub mod Edits
pub mod Deletes
pub mod Albums
pub mod Queueing
