-- ===== src/Datalogging.antt =====
-- The datalogger: lib/inc/datalogging and lib/src/datalogging.
pub mod Configuration
pub mod RawEncoder
pub mod Trigger
pub mod DataLogger
pub mod Samples
mod Tests
