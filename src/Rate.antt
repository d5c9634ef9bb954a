-- ===== src/Rate.antt =====
-- samples/observable/src: a sample rate in an observable, set and read by the shell.
pub mod Sample
pub mod SetGet
