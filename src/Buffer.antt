-- ===== src/Buffer.antt =====
-- core/src/buffer.c: the read buffer over received data, the growing write buffer and the write
-- buffer of a fixed size.
pub mod ReadBuffer
pub mod WriteBuffer
pub mod FixBuffer
pub mod RoundTrip
