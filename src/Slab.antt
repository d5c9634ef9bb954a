-- ===== src/Slab.antt =====
-- samples/memslab_core/src/main.c: messages in blocks of a memory slab, sent through a source whose
-- payload ops give the block back.
pub mod Demo
pub mod Leak
