-- ===== src/Decode.antt =====
-- Reading pointers: lib/capn.c from `bounds_ok` to `capn_resolve`, `capn_ok` and `capn_getp`.
pub mod Pointers
pub mod Limits
pub mod Far
pub mod Shapes
pub mod Read
pub mod Get
pub mod Safety
mod Tests
