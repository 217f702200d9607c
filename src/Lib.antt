-- ===== src/Lib.antt =====
-- Verification of c-capnproto, a Cap'n Proto runtime in C.
--
-- The program. A message is a list of segments, byte buffers of whole words. The session (`struct capn`
-- of lib/capnp_c.h) holds them in a list and in a red-black tree, by id. A pointer word in a segment
-- describes a struct, a list or a capability, or leads to another segment; lib/capn.c reads it to a
-- `capn_ptr`, and checks the bounds, a budget for the bytes that a reader visits and a limit on nesting.
-- lib/capn-malloc.c writes and reads messages, and lib/capn-stream.c packs them. lib/capn-rpc.c is a vat
-- on top: it answers the messages of a peer about the objects that it exports, and asks questions of
-- its own.
--
-- The model. A function of the C code is a function by clauses under its own name, without the prefix
-- `capn_`; a long body is cut at its `switch` cases into functions that are named for the case. A struct
-- is a record. Pointers between structs become values: a buffer with its length is a list of bytes, a
-- segment is named by its id, and a tree node with its parent links is a subtree with a path to the root.
-- `size_t` and addresses have 64 bits; conversions to 32 bits are written out. A return code is a data
-- type or an Option.
--
-- Files:
--   Common: Boolean tests, lists and signed integers over the native numbers, Option as a monad.
--   Stream: lib/capn-stream.c and `struct capn_stream` of lib/capnp_priv.h. State has the stream, Packed the
--     packed format as a relation, Deflate and Inflate one function per case of `capn_deflate` and
--     `capn_inflate`, RoundTrip joins the two. Emit is `packed_emit_seg` of lib/capn-malloc.c.
--   Tree: `struct capn_tree` and `capn_tree_insert`. Order and Balance are about the insertion, Search
--     about the search of `lookup_segment`.
--   Session: `struct capn`, `struct capn_segment`, `capn_append_segment` and `lookup_segment`.
--   Decode: lib/capn.c from `bounds_ok` to `capn_resolve`, and `capn_getp`. Limits has the bounds and budgets, Far the far
--     pointers, Shapes what a word describes, Read `read_ptr`, Get `capn_getp`; Safety has what a returned pointer promises.
--   Encode: `write_ptr_tag` of lib/capn.c. Fields and Shapes have the parts of the word as the reader takes
--     them apart, RoundTrip joins writer and reader.
--   Framing: lib/capn-malloc.c for messages in memory. The reader is `capn_init_mem` and `init_fp`: Feed has the
--     reads from plain and packed input, Frame the format, Read the reader on a framed message. Write has
--     `capn_write_mem` without packing, `capn_size` and `capn_root` for a session that has segments; Render is
--     about `header_render`. RoundTrip joins the two.
--   Scalars: numbers in structs and lists, lib/capn-list.inc with the accessors of lib/capnp_c.h and the bit
--     lists of lib/capn.c. Memory is about the bytes of the segments, Members one member of a list, Runs
--     several, Bits the bit lists; RoundTrip and Copies have what holds of them. An access is to an address, and
--     `none` is one that no segment holds.
--   Rpc: lib/capn-rpc.c. Messages has what is in a message, Table the loops over a table of slots, Conn the
--     tables of lib/capn-rpc.h with `capn_rpc_init` and `send_message`. Exports, Answers, Introductions, Calls,
--     Joins, Handoff (provisions), Questions and Streams have the functions on one table each, and their child
--     modules what holds of it; Handle is `capn_rpc_handle`, with the invariant of a connection.
--
-- The environment of a vat. `Env` of Rpc/Conn is what a connection calls and this repository's hand-written code
-- does not define: the readers and writers that are generated from rpc.capnp and
-- rpc-threeparty.capnp, with the framing, as `encode` and `decode`; the `send` callback; the servers. The
-- callbacks may depend on all frames and calls so far, which the connection keeps in `log`. A theorem that needs
-- `decode` to read back a message has that as a hypothesis. Level 3 arrangements belong to a
-- vat: a connection holds the table of its vat, and `set_vat` gives a connection the table of another.
--
-- Fuel. `deflate` runs at most one round for each byte of input and one more, `inflate` one for each byte
-- of input or of room and one more, `packed_emit_seg` one chunk for each byte of the segment and one more,
-- `stream_finish` one round for each call that waits.
--
-- Bounds. The theorems on packing are for buffers below 4 GiB, because the code computes minima on
-- `unsigned`. A segment table holds fewer than 2^32 segments. An `int`
-- wraps around where the source computes a product, a sum or a reference count in it (`wrap_int`), and so does
-- a `uint32_t` in the sizes of headers; theorems on the members of an object are for objects below 2 GiB.
-- `init_fp` has a result of its own for the write behind its array of header words.
--
-- Not modelled: the copy tree and the user callbacks of a session (`lookup` is null), the packed variant
-- of `capn_write_mem`, input and output, the compiler and generated code, and a server that calls its
-- connection back while it serves. `create` of lib/capn-malloc.c and with it the allocation and the
-- copying of objects are not part of the development yet.
pub mod Common
pub mod Stream
pub mod Tree
pub mod Session
pub mod Decode
pub mod Encode
pub mod Framing
pub mod Rpc
pub mod Scalars
