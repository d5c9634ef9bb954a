-- ===== src/Groups.antt =====
-- samples/settings_registers/src: settings.c and settings.h, and the validators of motor_settings.c
-- and network_settings.c. Groups of fields lie in observables and are found by register number.
pub mod Registry
pub mod Access
pub mod Configs
pub mod Observables
pub mod Limits
pub mod Lookup
pub mod Stored
pub mod Rejected
pub mod RoundTrip
pub mod Bulk
