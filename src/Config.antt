-- ===== src/Config.antt =====
-- The configuration manager: src/application/config.h and src/application/config.c, with the
-- factory defaults of src/application/config_defaults.c.
pub mod State
pub mod Defaults
pub mod Validate
pub mod Access
pub mod Stream
pub mod Decode
pub mod Encode
pub mod Stash
pub mod Lifecycle
pub mod Boot
pub mod FirstBoot
pub mod Persist
pub mod Calls
pub mod Session
pub mod Crash
