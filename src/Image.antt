-- ===== src/Image.antt =====
-- The macros of include/weave that lay out statics and wrap calls.
pub mod Macros
pub mod Typed
pub mod Boot
