-- ===== src/Framing.antt =====
-- The framing of a message in memory: `capn_init_mem` of lib/capn-malloc.c and what it calls. An address
-- is given for the block that `calloc` returns; `none` stands for a null pointer.
pub mod Feed
pub mod Frame
pub mod Read
pub mod Write
pub mod RoundTrip
mod Tests
use c_capnproto.Common.{
  ℕ, zero, suc, ◌+◌, ◌-◌, ◌*◌, ◌/◌, ◌%◌, ◌^◌, Bool, true, false, ◌||◌, Option, none, some, List, [],
  ◌∷◌, ltb, ◌==◌, if◌then◌else◌, length, take, drop, ◌>>=◌, ◌>>◌, guard, not,
}
use c_capnproto.Stream.State.{Stream, Status, success, misaligned, need_more, fresh}
use c_capnproto.Stream.Inflate.{inflate}
use c_capnproto.Session.{Segment, Session, empty_session, append_segment}
use c_capnproto.Decode.Pointers.{little_endian}

-- CAPN_MAX_SEGS.
abbrev pub max_segs : ℕ
max_segs = 1024

-- The part of `read_fp` for a message in memory: `sz` bytes and the stream behind them. `none` is a
-- result that is not 0.
unfoldable pub inflated : Option (Status × Stream) → Option (List ℕ × Stream)
inflated none = none
inflated (some (success, z)) = if z.avail_out == 0 then some (z.output, z) else none
inflated (some (misaligned, z)) = none
inflated (some (need_more, z)) = none

unfoldable pub read_mem : Bool → ℕ → Stream → Option (List ℕ × Stream)
read_mem true sz z = inflated (inflate (record z { output = []; avail_out = sz }))
read_mem false sz z =
    if ltb (length z.input) sz
    then none
    else some (take sz z.input, record z { input = drop sz z.input })

-- `capn_flip32(hdr[i])`.
abbrev pub header_word : List ℕ → ℕ
header_word hdr = little_endian 4 hdr

-- The loop over the header list: the sizes in bytes, and their total.
unfoldable pub segment_sizes : ℕ → List ℕ → ℕ → Option (List ℕ × ℕ)
segment_sizes zero hdr total = some ([], total)
segment_sizes (suc segnum) hdr total = do
  let n = header_word hdr
  guard (
      not
        (ltb ((2 ^ 31 - 1) / 8) n || ltb ((2 ^ 32 - 1) / 8) n || ltb (2 ^ 32 - 1 - total) (n * 8)))
  (sizes, sum) ← segment_sizes segnum (drop 4 hdr) (total + n * 8)
  some (n * 8 ∷ sizes, sum)

-- The loop that sets up the segments. `at` is the address `data`, and `bytes` what stands there.
unfoldable pub add_segments : Session → ℕ → List ℕ → List ℕ → Option Session
add_segments c at bytes [] = some c
add_segments c at bytes (size ∷ sizes) = do
  c' ←
      append_segment c
        (record { id = 0; data_addr = at; len = size; capacity = size; bytes = take size bytes })
  add_segments c' (at + size) (drop size bytes) sizes

-- `sizeof(struct capn_segment)`.
abbrev pub sizeof_segment : ℕ
sizeof_segment = 88

-- `init_fp` behind the header list `hdr`; `none` is -1.
unfoldable pub read_segments : Bool → Option ℕ → ℕ → List ℕ → Stream → Option Session
read_segments packed block segnum hdr z = do
  (sizes, total) ← segment_sizes segnum hdr 0
  s ← block
  (content, z') ← read_mem packed total z
  add_segments empty_session (s + sizeof_segment * segnum) content sizes

-- What `init_fp` ends with: 0 and a session, -1, or a write behind the end of the array `hdr`.
pub data Init : Type 0 where
  ready : Session → Init
  failed overrun : Init

abbrev pub returned : Option Session → Init
returned none = failed
returned (some c) = ready c

-- The number of segments: the first word and one more.
unfoldable pub read_segnum : Bool → Stream → Option (ℕ × Stream)
read_segnum packed z = do
  (word, z') ← read_mem packed 4 z
  guard (not (ltb (max_segs - 1) (header_word word)))
  some (header_word word + 1, z')

-- The bytes of the header list with its padding, and those of `uint32_t hdr[CAPN_MAX_SEGS]`.
abbrev pub list_size : ℕ → ℕ
list_size segnum = 8 * (segnum / 2) + 4

abbrev pub hdr_size : ℕ
hdr_size = 4 * max_segs

-- The array and the stream after the read of the header list.
unfoldable pub init_list : Bool → Option ℕ → ℕ → Option (List ℕ × Stream) → Init
init_list packed block segnum none = failed
init_list packed block segnum (some (hdr, z)) =
    if ltb hdr_size (list_size segnum)
    then overrun
    else returned (read_segments packed block segnum hdr z)

unfoldable pub read_list : Bool → Option ℕ → Option (ℕ × Stream) → Init
read_list packed block none = failed
read_list packed block (some (segnum, z)) =
    init_list packed block segnum (read_mem packed (list_size segnum) z)

-- `init_fp` for a message in memory.
unfoldable pub init_fp : Bool → Option ℕ → Stream → Init
init_fp packed block z = read_list packed block (read_segnum packed z)

-- `capn_init_mem`.
unfoldable pub init_mem : List ℕ → Bool → Option ℕ → Init
init_mem p packed block = init_fp packed block (fresh p 0)
