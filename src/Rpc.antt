-- ===== src/Rpc.antt =====
-- samples/sensor_rpc/src/sensor_module.c and sensor_module.h: a sensor behind three methods, and the
-- thread that serves them.
pub mod Sensor
pub mod Thread
pub mod Statistics
pub mod Spec
