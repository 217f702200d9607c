-- ===== src/Framing/RoundTrip.antt =====
-- `capn_write_mem` of lib/capn-malloc.c, and `capn_init_mem` on what it stored.
use c_capnproto.Session.{Session}
