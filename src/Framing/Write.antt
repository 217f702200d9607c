-- ===== src/Framing/Write.antt =====
-- `capn_write_mem` of lib/capn-malloc.c without packing, `capn_size`, and what they call.
pub mod Render
pub mod Sessions
use c_capnproto.Common.{
  ℕ, zero, suc, ◌+◌, ◌-◌, ◌*◌, ◌/◌, ◌%◌, ◌^◌, Bool, true, false, Option, none, some, List, [], ◌∷◌,
  ◌++◌, ltb, ◌==◌, if◌then◌else◌, take, drop, replicate, ◌>>=◌, ◌>>◌, guard, not,
}
use c_capnproto.Session.{Segment, Session, find_segment, lookup_segment}
use c_capnproto.Framing.Frame.{word_bytes}

-- The segment and all behind it: `seg`, `seg->next`, …
unfoldable pub chain_from : ℕ → List Segment → List Segment
chain_from id [] = []
chain_from id (s ∷ ss) = if s.id == id then s ∷ ss else chain_from id ss

-- The capacity of the first segment of a chain, and `if (r.seg->len < 8) r.seg->len = 8`. The callers use the
-- chain with this length; the session itself is not given back.
unfoldable pub root_chain : List Segment → Option (List Segment)
root_chain [] = none
root_chain (s ∷ ss) =
    if ltb s.capacity 8
    then none
    else if ltb s.len 8
    then some (record s { len = 8 } ∷ ss)
    else some (s ∷ ss)

-- `root.seg` of `root = capn_root(c)` in a session that has segments; `none` is NULL.
unfoldable pub root_segments : Session → Option (List Segment)
root_segments c = do id ← lookup_segment c none 0; root_chain (chain_from id c.seglist)

-- `headerlen` and `headersz` of `header_calc`, in words of four bytes and in bytes. Both are computed in
-- `uint32_t`.
abbrev pub header_len : ℕ → ℕ
header_len segnum = (2 + segnum) % 2 ^ 32 / 2 * 2

abbrev pub header_size : ℕ → ℕ
header_size segnum = 4 * header_len segnum % 2 ^ 32

-- `header[i] = v`. A place behind the end is not written.
unfoldable pub set_elem : ℕ → ℕ → List ℕ → List ℕ
set_elem i v [] = []
set_elem zero v (x ∷ xs) = v ∷ xs
set_elem (suc i) v (x ∷ xs) = x ∷ set_elem i v xs

-- The loop of `header_render`: `segnum - i` segments are left, and the total is `*datasz`.
unfoldable pub render_sizes : ℕ → ℕ → List Segment → List ℕ → ℕ → Option (List ℕ × ℕ)
render_sizes zero i [] header datasz = some (header, datasz)
render_sizes zero i (s ∷ ss) header datasz = none
render_sizes (suc left) i [] header datasz = none
render_sizes (suc left) i (s ∷ ss) header datasz =
    render_sizes left (suc i) ss (set_elem (suc i) (s.len / 8 % 2 ^ 32) header) (datasz + s.len)

-- `header_render`, on the words that stand in the buffer.
unfoldable pub header_render : ℕ → List Segment → List ℕ → ℕ → Option (List ℕ × ℕ)
header_render segnum seg header headerlen =
    render_sizes segnum 0 seg (set_elem (headerlen - 1) 0 (set_elem 0 (segnum - 1) header)) 0

unfoldable pub words_bytes : List ℕ → List ℕ
words_bytes [] = []
words_bytes (w ∷ ws) = word_bytes w ++ words_bytes ws

-- The loop of `memcpy`. Bytes that a segment does not list are 0.
unfoldable pub copy_segments : List Segment → List ℕ
copy_segments [] = []
copy_segments (s ∷ ss) = take s.len (s.bytes ++ replicate s.len 0) ++ copy_segments ss

-- `capn_write_mem` into `sz` bytes, of which the first hold the words `old`: the bytes that it stores.
-- Their number is the result, and `none` is -1.
unfoldable pub write_mem : Session → List ℕ → ℕ → Option (List ℕ)
write_mem c old sz = do
  guard (not (c.segnum == 0))
  let headersz = header_size c.segnum
  guard (not (ltb sz headersz))
  seg ← root_segments c
  (header, datasz) ← header_render c.segnum seg old (header_len c.segnum)
  guard (not (ltb sz (headersz + datasz)))
  some (words_bytes header ++ copy_segments seg)

-- The loop of `capn_size`.
unfoldable pub data_size : ℕ → List Segment → ℕ → Option ℕ
data_size zero [] datasz = some datasz
data_size zero (s ∷ ss) datasz = none
data_size (suc left) [] datasz = none
data_size (suc left) (s ∷ ss) datasz = data_size left ss (datasz + s.len)

-- `capn_size`; `none` is -1.
unfoldable pub size : Session → Option ℕ
size c = do
  guard (not (c.segnum == 0))
  seg ← root_segments c
  datasz ← data_size c.segnum seg 0
  some (8 * ((2 + c.segnum) % 2 ^ 32 / 2) % 2 ^ 32 + datasz)
