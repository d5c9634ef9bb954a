-- ===== src/Table.antt =====
-- samples/settings_table/src/settings_api.c and settings_api.h: settings as registers in areas of an
-- address space, each area kept in an observable.
pub mod Value
pub mod Areas
pub mod Access
pub mod Api
pub mod Order
pub mod Layout
pub mod Lookup
pub mod Registers
pub mod Guarded
pub mod Writes
pub mod Safety
pub mod Start
pub mod SetGet
pub mod Validated
pub mod Define
pub mod SampleAreas
pub mod Published
pub mod Defaults
