-- ===== src/Routing.antt =====
-- samples/packet_routing/src: the command handler of cmd_handler.c and the handlers of protocol.c.
pub mod Commands
pub mod Protocol
pub mod Header
pub mod Totals
pub mod Server
pub mod Sensors
pub mod Stream
pub mod Inbound
pub mod Chained
pub mod Outbound
