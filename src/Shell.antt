-- ===== src/Shell.antt =====
-- The shells of the two settings samples: samples/settings_registers/src/main.c and
-- samples/settings_table/src/settings_shell.c.
pub mod Text
pub mod Decimal
pub mod Hex
pub mod Values
pub mod ReadBack
pub mod TableCommands
pub mod WriteRead
pub mod RegisterCommands
pub mod Bulk
