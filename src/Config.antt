-- ===== src/Config.antt =====
-- src/config.c and src/config.h: the settings that a host reads and writes by system exclusive
-- messages, and the EEPROM cells (src/constants.h) in which they are kept.
pub mod Global
pub mod GlobalLaws
pub mod Decode
pub mod Reset
pub mod Bulk
pub mod BulkTransfer
