-- ===== src/Packet.antt =====
-- core/src/packet.c: the chunked packets of RTMP, received and sent.
pub mod Wire
pub mod Header
pub mod Receive
pub mod Send
pub mod Delivery
pub mod InStep
