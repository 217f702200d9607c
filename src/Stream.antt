-- ===== src/Stream.antt =====
-- lib/capn-stream.c: the packed encoding, `capn_deflate` and `capn_inflate`.
pub mod State
pub mod Words
pub mod Packed
pub mod Deflate
pub mod Inflate
pub mod RoundTrip
pub mod Emit
mod Tests
